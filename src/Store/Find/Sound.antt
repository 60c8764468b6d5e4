-- ===== src/Store/Find/Sound.antt =====
-- A log is sound if it holds exactly one record for every number up to the last. `set` and `del` keep
-- it sound.
use mathlib.Core.Option.{some-injective}
use model_lib.Prelude.{
  ℕ, ◌+◌, ◌≤◌, ◌<◌, ◌≡◌, ◌≢◌, ◌⊎◌, ap, sym, ◌∙◌, subst, inl, inr, Option, none, some, arith,
  if◌then◌else◌, Bool-cases,
}
use model_lib.Prelude.Text.{ByteString, str_eq, str_eq_sound, str_eq_refl}
use model_lib.Store.Keys.{encode_kv_key, encode_seq_key, decode_seq_key}
use model_lib.Store.Keys.RoundTrip.{encode_seq_key-lt, str_eq-kv_seq}
use model_lib.Store.Binlog.{make, repr}
use model_lib.Store.Const.BinlogType
use model_lib.Store.LevelDb.{LevelDb}
use model_lib.Store.Cursor.{Before}
use model_lib.Store.Queue.{Queue}
use model_lib.Store.Find.{max_seq}
use model_lib.Store.Impl.Kv.{Wrote, next_seq, after_write}

-- The keys that the cursors of the queue take for keys of the log, or pass on the way to them.
abbrev pub IsLogKey : ByteString → Type 0
IsLogKey j = (¬ Before (encode_seq_key max_seq) j) ⊎ (decode_seq_key j ≢ 0)

-- The key and the value of a record with a number up to `last`.
pub record IsEntry (last : ℕ) (j v : ByteString) : Type 0 where
  pub number : ℕ
  pub positive : 0 < number
  pub small : number ≤ last
  pub at : j ≡ encode_seq_key number
  pub type : ℕ
  pub cmd : ℕ
  pub key : ByteString
  pub holds : v ≡ repr (make number type cmd key)

not-IsLogKey-kv : (k : ByteString) → ¬ IsLogKey (encode_kv_key k)
unfolding encode_kv_key decode_seq_key
not-IsLogKey-kv k (inl h) = h (encode_seq_key-lt max_seq b'k' k (omega arith))
not-IsLogKey-kv k (inr h) = h (ground arith)

IsEntry-le : (m n : ℕ) (j v : ByteString) → m ≤ n → IsEntry m j v → IsEntry n j v
IsEntry-le m n j v h e = record {
  number = e.number;
  positive = e.positive;
  small = omega (arith, e.small);
  at = e.at;
  type = e.type;
  cmd = e.cmd;
  key = e.key;
  holds = e.holds;
}

module _ {L : LevelDb} where
  pub record IsSound (q : Queue L) : Type 0 where
    pub small : q.last_seq < max_seq
    pub entry : (j v : ByteString) → L.read q.db j ≡ some v → IsLogKey j → IsEntry q.last_seq j v
    pub full : (n : ℕ) → 0 < n → n ≤ q.last_seq → L.read q.db (encode_seq_key n) ≢ none

  -- One write of a key keeps the log sound.
  pub Wrote-IsSound :
      (q q' : Queue L) (cmd : ℕ) (k : ByteString) (v : Option ByteString)
      → Wrote q q' cmd (encode_kv_key k) v
      → q.last_seq + 1 < max_seq
      → IsSound q
      → IsSound q'
  Wrote-IsSound q q' cmd k v w fits s =
      let next : next_seq q ≡ q.last_seq + 1 = omega arith in
      record {
        small = omega (arith, w.last_seq, next, fits);
        entry = λ j x e lk.
            subst (λ n. IsEntry n j x) (sym (w.last_seq ∙ next))
              (entry_after j x (sym (w.content j) ∙ e) lk);
        full = λ n p h. full_after n p (omega (arith, h, w.last_seq, next));
      }
    where
      full_after : (n : ℕ) → 0 < n → n ≤ q.last_seq + 1 → L.read q'.db (encode_seq_key n) ≢ none
      full_after n p h r =
          let next : next_seq q ≡ q.last_seq + 1 = omega arith in
          let e = sym (w.content (encode_seq_key n)) ∙ r in
          elim (Bool-cases (str_eq (encode_seq_key (next_seq q)) (encode_seq_key n))) [
            | inl t ↦ cc (rw (t, if◌then◌else◌) at e)
            | inr f ↦
                let ne : n ≢ q.last_seq + 1 =
                  λ i. cc (f, str_eq_refl (encode_seq_key n), ap encode_seq_key (next ∙ sym i)) in
                s.full n p (omega (arith, h, ne)) (rw (f, if◌then◌else◌, str_eq-kv_seq k n) at e)
          ]

      entry_after :
          (j x : ByteString)
          → after_write q cmd (encode_kv_key k) v j ≡ some x
          → IsLogKey j
          → IsEntry (q.last_seq + 1) j x
      entry_after j x e lk = elim (Bool-cases (str_eq (encode_seq_key (next_seq q)) j)) [
        | inl t ↦
            let next : next_seq q ≡ q.last_seq + 1 = omega arith in
            record {
              number = q.last_seq + 1;
              positive = omega arith;
              small = omega arith;
              at = sym (str_eq_sound _ _ t) ∙ ap encode_seq_key next;
              type = BinlogType.sync;
              cmd = cmd;
              key = encode_kv_key k;
              holds =
                  sym (some-injective _ _ (rw (t, if◌then◌else◌) at e))
                  ∙ ap (λ n. repr (make n BinlogType.sync cmd (encode_kv_key k))) next;
            }
        | inr f ↦ elim (Bool-cases (str_eq (encode_kv_key k) j)) [
          | inl t ↦ absurd (not-IsLogKey-kv k (subst IsLogKey (sym (str_eq_sound _ _ t)) lk))
          | inr g ↦
              IsEntry-le q.last_seq (q.last_seq + 1) j x (omega arith)
                (s.entry j x (rw (f, if◌then◌else◌, g) at e) lk)
        ]
      ]
