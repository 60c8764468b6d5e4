-- ===== src/Store/Impl/Frame.antt =====
-- What `hset` leaves alone, and that it does not fail where LevelDB does not.
use model_lib.Prelude.{
  ℕ, ◌^◌, ◌≤◌, ◌≡◌, ◌≢◌, refl, ap, ◌∙◌, ◌⊎◌, inl, inr, Option, true, false, List, [], ◌∷◌, ◌++◌,
  arith, ltb, if◌then◌else◌, ◌==◌, length, Bool-cases,
}
use model_lib.Prelude.Int.{ℤ, pos, ◌+ℤ◌, to_word}
use model_lib.Prelude.Text.{ByteString, str_eq}
use model_lib.Store.Const.{key_len_max}
use model_lib.Store.Keys.{encode_hash_key}
use model_lib.Store.Keys.RoundTrip.{str_eq-hash_ne}
use model_lib.Store.LevelDb.{LevelDb, Op, failed, replay}
use model_lib.Store.Queue
use model_lib.Store.Queue.{Queue, begin, commit, rollback, add_log}
use model_lib.Store.Impl.{
  is_empty, committed, hget, hset_one, hset, hsize, count_new, incr_hsize, finish_hset,
}
use model_lib.Store.Impl.Kv.{commit-IsCommitted}
use model_lib.Store.Impl.Hash.{
  Got-cases, encode_seq_key-ne-hash, encode_hsize_key-ne-hash, replay-append, stored,
}

module _ {L : LevelDb} (q : Queue L) (name key val : ByteString) (t : ℕ)
    (named : is_empty name ≡ false) (keyed : is_empty key ≡ false) (short : length name ≤ 255)
    (short_key : length key ≤ 255) (reads : L.get q.db (encode_hash_key name key) ≢ failed) where
  -- A name and a key that may be stored: `hset_one` stores the value, or the field has it.
  hset_one-ways :
      ((n : ℕ) × (hset_one q name key val t ≡ (pos n, stored q name key val t)))
      ⊎ (hset_one q name key val t ≡ (pos 0, q))
  unfolding hset_one hget
  hset_one-ways =
      let fits : ltb key_len_max (length name) ≡ false = ground arith in
      let key_fits : ltb key_len_max (length key) ≡ false = ground arith in
      elim (Got-cases (L.get q.db (encode_hash_key name key))) [
        | inl (v, g) ↦ elim (Bool-cases (str_eq v val)) [
          | inl s ↦ inr (rw (named, keyed, if◌then◌else◌, fits, key_fits, g, hget, g, s) refl)
          | inr s ↦ inl (0, rw (named, keyed, if◌then◌else◌, fits, key_fits, g, hget, g, s) refl)
        ]
        | inr (inl g) ↦ inl (1, rw (named, keyed, if◌then◌else◌, fits, key_fits, g) refl)
        | inr (inr g) ↦ absurd (reads g)
      ]

module _ {L : LevelDb} where
  -- The batch of `q1` says nothing of the field `name2`, `key2`.
  record Spares (q q1 : Queue L) (j : ByteString) : Type 0 where
    pub db : q1.db ≡ q.db
    pub batch : (old : Option ByteString) → replay q1.batch j old ≡ old

  stored-Spares :
      (q : Queue L) (name key val name2 key2 : ByteString) (t : ℕ)
      → str_eq (encode_hash_key name key) (encode_hash_key name2 key2) ≡ false
      → Spares q (stored (begin q) name key val t) (encode_hash_key name2 key2)
  unfolding begin add_log Queue.put
  stored-Spares q name key val name2 key2 t other = record {
    db = refl;
    batch = λ old. rw (other, encode_seq_key-ne-hash, if◌then◌else◌) refl;
  }

  -- A further operation on another key.
  append-Spares :
      (q q1 : Queue L) (op : Op) (j : ByteString)
      → ((old : Option ByteString) → replay (op ∷ []) j old ≡ old)
      → Spares q q1 j
      → Spares q (record q1 { batch = q1.batch ++ op ∷ [] }) j
  append-Spares q q1 op j h s = record {
    db = s.db;
    batch = λ old. replay-append q1.batch (op ∷ []) j old ∙ h _ ∙ s.batch old;
  }

  incr_hsize-Spares :
      (q q1 : Queue L) (name name2 key2 : ByteString) (n : ℤ)
      → Spares q q1 (encode_hash_key name2 key2)
      → Spares q (incr_hsize q1 name n) (encode_hash_key name2 key2)
  unfolding incr_hsize Queue.put Queue.delete
  incr_hsize-Spares q q1 name name2 key2 n s =
      elim (Bool-cases (to_word (2 ^ 64) (hsize q1 name +ℤ n) == 0)) [
        | inl e ↦
            rw (e, if◌then◌else◌)
              (append-Spares q q1 _ _ (λ old. rw (encode_hsize_key-ne-hash, if◌then◌else◌) refl) s)
        | inr e ↦
            rw (e, if◌then◌else◌)
              (append-Spares q q1 _ _ (λ old. rw (encode_hsize_key-ne-hash, if◌then◌else◌) refl) s)
      ]

  count_new-Spares :
      (q q1 : Queue L) (name name2 key2 : ByteString) (n : ℕ)
      → Spares q q1 (encode_hash_key name2 key2)
      → Spares q (count_new q1 name (pos n)) (encode_hash_key name2 key2)
  count_new-Spares q q1 name name2 key2 n s = elim (Bool-cases (n == 0)) [
    | inl e ↦ rw (e, if◌then◌else◌) s
    | inr e ↦ rw (e, if◌then◌else◌) (incr_hsize-Spares q q1 name name2 key2 (pos n) s)
  ]

  -- A transaction that says nothing of a key leaves it as it was.
  commit-Spares :
      (q q2 : Queue L) (j : ByteString)
      → (commit q2).0 ≡ true
      → Spares q q2 j
      → L.read (rollback (commit q2).1).db j ≡ L.read q.db j
  commit-Spares q q2 j ok s =
      (commit-IsCommitted q2 ok).content j ∙ s.batch _ ∙ ap (λ d. L.read d j) s.db

  finish-Spares :
      (q q1 : Queue L) (name name2 key2 : ByteString) (n : ℕ)
      → ((d : L.Db) (b : List Op) → (L.write d b).0 ≡ true)
      → Spares q q1 (encode_hash_key name2 key2)
      → ((finish_hset q1 name (pos n)).0 ≡ pos n)
        × (L.read (finish_hset q1 name (pos n)).1.db (encode_hash_key name2 key2)
            ≡ L.read q.db (encode_hash_key name2 key2))
  finish-Spares q q1 name name2 key2 n reliable s =
      let ok : (commit (count_new q1 name (pos n))).0 ≡ true = unfold commit in reliable _ _ in
      (
        ap (λ b. committed b (pos n)) ok,
        commit-Spares q (count_new q1 name (pos n)) _ ok
            (count_new-Spares q q1 name name2 key2 n s),
      )

  hset-spares_key :
      (q : Queue L) (name key val name2 key2 : ByteString) (t : ℕ)
      → is_empty name ≡ false
      → is_empty key ≡ false
      → length name ≤ 255
      → length key ≤ 255
      → L.get q.db (encode_hash_key name key) ≢ failed
      → ((d : L.Db) (b : List Op) → (L.write d b).0 ≡ true)
      → str_eq (encode_hash_key name key) (encode_hash_key name2 key2) ≡ false
      → ((n : ℕ) × ((hset q name key val t).0 ≡ pos n))
        × (L.read (hset q name key val t).1.db (encode_hash_key name2 key2)
            ≡ L.read q.db (encode_hash_key name2 key2))
  unfolding hset
  hset-spares_key q name key val name2 key2 t named keyed short short_key reads reliable other =
      elim (hset_one-ways (begin q) name key val t named keyed short short_key
        (unfold begin in reads)) [
          | inl (n, e) ↦
              let (a, b) =
                finish-Spares q (stored (begin q) name key val t) name name2 key2 n reliable
                  (unfold begin in stored-Spares q name key val name2 key2 t other) in
              rw e ((n, a), b)
          | inr e ↦
              let (a, b) =
                finish-Spares q (begin q) name name2 key2 0 reliable
                  (unfold begin in record { db = refl; batch = λ old. refl }) in
              rw e ((0, a), b)
        ]

  -- Where LevelDB does not fail, `hset` of a name and a key of at most 255 bytes, neither empty,
  -- returns no error and leaves every other field as it was: the other fields of the hash, and all
  -- fields of every hash with another name of at most 255 bytes.
  pub hset-spares :
      (q : Queue L) (name key val name2 key2 : ByteString) (t : ℕ)
      → is_empty name ≡ false
      → is_empty key ≡ false
      → length name ≤ 255
      → length key ≤ 255
      → length name2 ≤ 255
      → L.get q.db (encode_hash_key name key) ≢ failed
      → ((d : L.Db) (b : List Op) → (L.write d b).0 ≡ true)
      → (name ≢ name2) ⊎ (key ≢ key2)
      → ((n : ℕ) × ((hset q name key val t).0 ≡ pos n))
        × (L.read (hset q name key val t).1.db (encode_hash_key name2 key2)
            ≡ L.read q.db (encode_hash_key name2 key2))
  hset-spares q name key val name2 key2 t named keyed short short_key short2 reads reliable other =
      hset-spares_key q name key val name2 key2 t named keyed short short_key reads reliable
        (str_eq-hash_ne name key name2 key2 short short2 other)
