-- ===== src/Store/Impl/Hash.antt =====
-- What `hset` does to the fields of hashes.
use model_lib.Prelude.{
  ℕ, ◌≡◌, ◌≢◌, refl, ap, sym, subst, ◌∙◌, ◌⊎◌, inl, inr, Option, some, true, false, ◌||◌, List, [],
  ◌∷◌, ◌++◌, arith, ltb, if◌then◌else◌, ◌==◌, length, Bool-cases,
}
use model_lib.Prelude.Int.{ℤ, pos}
use model_lib.Prelude.Text.{ByteString, str_eq, str_eq_sound, str_eq_refl}
use model_lib.Store.Const.{key_len_max}
use model_lib.Store.Const.BinlogCommand
use model_lib.Store.Keys.{encode_hash_key, encode_hsize_key, encode_seq_key}
use model_lib.Store.LevelDb.{LevelDb, Op, Got, found, not_found, failed, Agrees, replay}
use model_lib.Store.Queue
use model_lib.Store.Queue.{Queue, begin, commit, rollback, add_log}
use model_lib.Store.Impl.{
  error, is_empty, committed, hget, hset_one, hset, incr_hsize, finish_hset, store_size,
}
use model_lib.Store.Impl.Kv.{commit-IsCommitted}

pub Got-cases : (g : Got) → ((v : ByteString) × (g ≡ found v)) ⊎ ((g ≡ not_found) ⊎ (g ≡ failed))
Got-cases (found v) = inl (v, refl)
Got-cases not_found = inr (inl refl)
Got-cases failed = inr (inr refl)

pub encode_seq_key-ne-hash :
    (n : ℕ) (name key : ByteString) → str_eq (encode_seq_key n) (encode_hash_key name key) ≡ false
unfolding encode_seq_key encode_hash_key str_eq
encode_seq_key-ne-hash n name key = refl

pub encode_hsize_key-ne-hash :
    (hash name key : ByteString) → str_eq (encode_hsize_key hash) (encode_hash_key name key) ≡ false
unfolding encode_hsize_key encode_hash_key str_eq
encode_hsize_key-ne-hash hash name key = refl

-- A batch is carried out in order.
pub replay-append :
    (batch more : List Op) (k : ByteString) (old : Option ByteString)
    → replay (batch ++ more) k old ≡ replay more k (replay batch k old)
replay-append [] more k old = refl
replay-append (Op.put j v ∷ batch) more k old = replay-append batch more k _
replay-append (Op.delete j ∷ batch) more k old = replay-append batch more k _

module _ {L : LevelDb} where
  -- The queue with the field and its log record in the batch.
  abbrev pub stored : Queue L → ByteString → ByteString → ByteString → ℕ → Queue L
  stored q name key val log_type =
      let hkey = encode_hash_key name key in
      add_log (Queue.put q hkey val) log_type BinlogCommand.hset hkey

  -- The four ways of `hset_one`: an error, a new field, another value, the same value.
  hset_one-cases :
      (q : Queue L) (name key val : ByteString) (t : ℕ)
      → L.get q.db (encode_hash_key name key) ≢ failed
      → (hset_one q name key val t ≡ (error, q))
        ⊎ ((hset_one q name key val t ≡ (pos 1, stored q name key val t))
            ⊎ ((hset_one q name key val t ≡ (pos 0, stored q name key val t))
                ⊎ ((hset_one q name key val t ≡ (pos 0, q))
                    × (L.get q.db (encode_hash_key name key) ≡ found val))))
  unfolding hset_one hget
  hset_one-cases q name key val t h = elim (Bool-cases (is_empty name || is_empty key)) [
    | inl e ↦ inl (rw (e, if◌then◌else◌) refl)
    | inr e ↦ elim (Bool-cases (ltb key_len_max (length name))) [
      | inl l ↦ inl (rw (e, if◌then◌else◌, l) refl)
      | inr l ↦ elim (Bool-cases (ltb key_len_max (length key))) [
        | inl k ↦ inl (rw (e, if◌then◌else◌, l, k) refl)
        | inr k ↦ elim (Got-cases (L.get q.db (encode_hash_key name key))) [
          | inl (v, g) ↦ elim (Bool-cases (str_eq v val)) [
            | inl s ↦ inr (
                inr (
                  inr (
                    rw (e, if◌then◌else◌, l, k, g, hget, g, s) refl,
                    g ∙ ap found (str_eq_sound v val s),
                  )))
            | inr s ↦ inr (inr (inl (rw (e, if◌then◌else◌, l, k, g, hget, g, s) refl)))
          ]
          | inr (inl g) ↦ inr (inl (rw (e, if◌then◌else◌, l, k, g) refl))
          | inr (inr g) ↦ absurd (h g)
        ]
      ]
    ]
  ]

  -- `q1` has a batch that leaves `val` at the field, on the database of `q`.
  record Leaves (q q1 : Queue L) (hkey val : ByteString) : Type 0 where
    pub db : q1.db ≡ q.db
    pub batch : (old : Option ByteString) → replay q1.batch hkey old ≡ some val

  stored-Leaves :
      (q : Queue L) (name key val : ByteString) (t : ℕ)
      → Leaves q (stored (begin q) name key val t) (encode_hash_key name key) val
  unfolding begin add_log Queue.put
  stored-Leaves q name key val t = record {
    db = refl;
    batch = λ old.
        rw (str_eq_refl (encode_hash_key name key), encode_seq_key-ne-hash, if◌then◌else◌) refl;
  }

  -- The size of the hash stands under another key.
  store_size-Leaves :
      (q q1 : Queue L) (name key val : ByteString) (n : ℕ)
      → Leaves q q1 (encode_hash_key name key) val
      → Leaves q (store_size q1 (encode_hsize_key name) n) (encode_hash_key name key) val
  unfolding Queue.put Queue.delete
  store_size-Leaves q q1 name key val n h = elim (Bool-cases (n == 0)) [
    | inl e ↦
        rw (e, if◌then◌else◌)
          (record {
            db = h.db;
            batch = λ old.
                replay-append q1.batch _ _ old
                ∙ rw (encode_hsize_key-ne-hash, if◌then◌else◌) (h.batch old);
          })
    | inr e ↦
        rw (e, if◌then◌else◌)
          (record {
            db = h.db;
            batch = λ old.
                replay-append q1.batch _ _ old
                ∙ rw (encode_hsize_key-ne-hash, if◌then◌else◌) (h.batch old);
          })
  ]

  -- A committed batch leaves the field in the database.
  commit-Leaves :
      (q q1 : Queue L) (hkey val : ByteString) (m : ℕ) (n : ℕ)
      → Leaves q q1 hkey val
      → committed (commit q1).0 (pos m) ≡ pos n
      → L.read (rollback (commit q1).1).db hkey ≡ some val
  commit-Leaves q q1 hkey val m n h e =
      let ok : (commit q1).0 ≡ true = ground arith in
      (commit-IsCommitted q1 ok).content hkey ∙ h.batch _

  -- An empty batch leaves the value that was read.
  commit-same :
      (q : Queue L) (hkey val : ByteString) (n : ℕ)
      → L.get q.db hkey ≡ found val
      → committed (commit (begin q)).0 (pos 0) ≡ pos n
      → L.read (rollback (commit (begin q)).1).db hkey ≡ some val
  commit-same q hkey val n g e =
      let ok : (commit (begin q)).0 ≡ true = ground arith in
      (commit-IsCommitted (begin q) ok).content hkey
      ∙ (unfold begin in subst (λ r. Agrees r (L.read q.db hkey)) g (L.get_agrees q.db hkey))

  -- The property of a result of `hset_one` that makes `hset-found` true.
  abbrev FoundAfter : ByteString → ByteString → ByteString → ℕ → ℤ × Queue L → Type 0
  FoundAfter name hkey val n (ret, q1) =
      (finish_hset q1 name ret).0 ≡ pos n → L.read (finish_hset q1 name ret).1.db hkey ≡ some val

  -- Where `hset` returns no error, the field has the value: it was new, or changed, or had it
  -- before. LevelDB must not fail to read the field.
  pub hset-found :
      (q : Queue L) (name key val : ByteString) (t n : ℕ)
      → L.get q.db (encode_hash_key name key) ≢ failed
      → (hset q name key val t).0 ≡ pos n
      → L.read (hset q name key val t).1.db (encode_hash_key name key) ≡ some val
  unfolding hset begin
  hset-found q name key val t n h =
      let hkey = encode_hash_key name key in
      let leaves = stored-Leaves q name key val t in
      elim (hset_one-cases (begin q) name key val t h) [
        | inl e ↦ subst (FoundAfter name hkey val n) (sym e) (λ r. cc r)
        | inr (inl e) ↦ subst (FoundAfter name hkey val n) (sym e) (
            commit-Leaves q _ hkey val 1 n
              (unfold incr_hsize in store_size-Leaves q _ name key val _ leaves))
        | inr (inr (inl e)) ↦
            subst (FoundAfter name hkey val n) (sym e) (commit-Leaves q _ hkey val 0 n leaves)
        | inr (inr (inr (e, g))) ↦
            subst (FoundAfter name hkey val n) (sym e) (commit-same q hkey val n g)
      ]
