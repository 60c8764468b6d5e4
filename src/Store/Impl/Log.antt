-- ===== src/Store/Impl/Log.antt =====
-- The log records the requests in order, under consecutive sequence numbers.
use model_lib.Prelude.{
  ℕ, suc, ◌+◌, ◌^◌, ◌≤◌, ◌<◌, ◌≡◌, refl, ◌∙◌, subst, Option, none, some, inl, inr, List, [], ◌∷◌,
  arith, length,
}
use mathlib.Core.Option.{some-injective}
use model_lib.Prelude.Int.{pos, ℤ-cases}
use model_lib.Prelude.Text.{ByteString, str_eq_refl}
use model_lib.Store.Const.BinlogType
use model_lib.Store.Const.BinlogCommand
use model_lib.Store.Keys.{encode_kv_key, encode_seq_key}
use model_lib.Store.Keys.RoundTrip.{str_eq-seq_ne, str_eq-kv_seq}
use model_lib.Store.Binlog.{make, repr}
use model_lib.Store.LevelDb.{LevelDb}
use model_lib.Store.Queue.{Queue}
use model_lib.Store.Impl.{set}
use model_lib.Store.Impl.Kv.{Wrote, next_seq, set_lem, del_lem}
use model_lib.Store.Impl.History.{Request, set_key, del_key, step, run, unless_failed}

-- The requests that reach the log.
unfoldable pub writes : List Request → ℕ
writes [] = 0
writes (set_key [] v ∷ rs) = writes rs
writes (set_key (c ∷ k) v ∷ rs) = suc (writes rs)
writes (del_key k ∷ rs) = suc (writes rs)

abbrev pub entry : ℕ → ℕ → ByteString → ByteString
entry n cmd at = repr (make n BinlogType.sync cmd at)

module _ {L : LevelDb} where
  -- The log of `q` holds a record of each request, from the number behind `n` on, in order.
  abbrev pub IsLogged : Queue L → ℕ → List Request → Type 0
  IsLogged q n [] = Unit
  IsLogged q n (set_key [] v ∷ rs) = IsLogged q n rs
  IsLogged q n (set_key (c ∷ k) v ∷ rs) =
      (L.read q.db (encode_seq_key (n + 1))
        ≡ some (entry (n + 1) BinlogCommand.kset (encode_kv_key (c ∷ k))))
      × IsLogged q (n + 1) rs
  IsLogged q n (del_key k ∷ rs) =
      (L.read q.db (encode_seq_key (n + 1))
        ≡ some (entry (n + 1) BinlogCommand.kdel (encode_kv_key k)))
      × IsLogged q (n + 1) rs

  -- A write adds its record, and keeps the records before it.
  pub record Extends (q q' : Queue L) (n : ℕ) : Type 0 where
    pub last_seq : q'.last_seq ≡ q.last_seq + n
    pub frame :
        (m : ℕ) → m ≤ q.last_seq → L.read q'.db (encode_seq_key m) ≡ L.read q.db (encode_seq_key m)

  module _ (q q' : Queue L) (cmd : ℕ) (k : ByteString) (v : Option ByteString)
      (w : Wrote q q' cmd (encode_kv_key k) v) (fits : q.last_seq + 1 < 2 ^ 64) where
    next_seq-small : next_seq q ≡ q.last_seq + 1
    next_seq-small = omega arith

    Wrote-entry :
        L.read q'.db (encode_seq_key (q.last_seq + 1))
        ≡ some (entry (q.last_seq + 1) cmd (encode_kv_key k))
    Wrote-entry =
        w.content (encode_seq_key (q.last_seq + 1))
        ∙ rw (next_seq-small, str_eq_refl (encode_seq_key (q.last_seq + 1)))

    Wrote-Extends : Extends q q' 1
    Wrote-Extends = record {
      last_seq = w.last_seq ∙ next_seq-small;
      frame = λ m h.
          w.content (encode_seq_key m)
          ∙ rw (
            str_eq-seq_ne (next_seq q) m (omega arith) (omega arith) (omega arith),
            str_eq-kv_seq k m,
          );
    }

  abbrev Records : Queue L → Queue L → List Request → Type 0
  Records q q' rs = IsLogged q' q.last_seq rs × Extends q q' (writes rs)

  -- What a first request recorded stays there while the rest runs.
  Records-cons :
      (q p q' : Queue L) (cmd : ℕ) (k : ByteString) (v : Option ByteString) (rs : List Request)
      → Wrote q p cmd (encode_kv_key k) v
      → q.last_seq + 1 < 2 ^ 64
      → Records p q' rs
      → (L.read q'.db (encode_seq_key (q.last_seq + 1))
          ≡ some (entry (q.last_seq + 1) cmd (encode_kv_key k)))
        × IsLogged q' (q.last_seq + 1) rs
        × Extends q q' (suc (writes rs))
  Records-cons q p q' cmd k v rs w fits (logged, ext) =
      let e = Wrote-Extends q p cmd k v w fits in
      let at : p.last_seq ≡ q.last_seq + 1 = e.last_seq in
      (
        ext.frame (q.last_seq + 1) (omega arith) ∙ Wrote-entry q p cmd k v w fits,
        subst (λ n. IsLogged q' n rs) at logged,
        record {
          last_seq = omega (arith, ext.last_seq);
          frame = λ m h. ext.frame m (omega arith) ∙ e.frame m h;
        },
      )

  Records-step :
      (q q' : Queue L) (r : Request) (rs : List Request) (n : ℕ)
      → (step q r).0 ≡ pos n
      → q.last_seq + 1 < 2 ^ 64
      → Records (step q r).1 q' rs
      → Records q q' (r ∷ rs)
  unfolding step writes
  Records-step q q' (set_key [] v) rs n h fits rec = unfold set in rec
  Records-step q q' (set_key (c ∷ k) v) rs n h fits rec =
      let (a, b, e) =
        Records-cons q _ q' _ (c ∷ k) (some v) rs ((set_lem q c k v).0 n h) fits rec in
      ((a, b), e)
  Records-step q q' (del_key k) rs n h fits rec =
      let (a, b, e) = Records-cons q _ q' _ k none rs ((del_lem q k).0 n h) fits rec in ((a, b), e)

  pub step-last_seq-le :
      (q : Queue L) (r : Request) (n : ℕ)
      → (step q r).0 ≡ pos n
      → (step q r).1.last_seq ≤ q.last_seq + 1
  unfolding step
  step-last_seq-le q (set_key [] v) n h = unfold set in omega arith
  step-last_seq-le q (set_key (c ∷ k) v) n h =
      let w = (set_lem q c k v).0 n h in omega (arith, w.last_seq)
  step-last_seq-le q (del_key k) n h = let w = (del_lem q k).0 n h in omega (arith, w.last_seq)

  -- After any requests of which none failed, the log holds a record of each write (with its
  -- command and key) under consecutive sequence numbers from the old last one on, in the order of
  -- the requests; the last number has grown by the number of writes; and the older records are as
  -- they were. The numbers stay below 2 ^ 64.
  pub run-log :
      (q q' : Queue L) (rs : List Request)
      → run q rs ≡ some q'
      → q.last_seq + length rs < 2 ^ 64
      → IsLogged q' q.last_seq rs × Extends q q' (writes rs)
  run-log q q' [] h fits =
      let e = some-injective _ _ h in
      subst (λ p. Records q p []) e
        (tt, record { last_seq = unfold writes in omega arith; frame = λ m k. refl })
  run-log q q' (r ∷ rs) h fits = elim (ℤ-cases (step q r).0) [
    | inl (n, e) ↦ Records-step q q' r rs n e (omega arith) (
        run-log (step q r).1 q' rs (rw (e, unless_failed) at h)
          (omega (arith, step-last_seq-le q r n e)))
    | inr (n, e) ↦ cc (rw (e, unless_failed) at h)
  ]
