-- ===== src/Store/Find/Recovery.antt =====
-- A sound log stays sound, and the constructor of a queue recovers its last number.
use mathlib.Core.Option.{some-injective}
use model_lib.Prelude.{
  ℕ, ◌+◌, ◌^◌, ◌<◌, ◌≡◌, ◌⊎◌, refl, ap, sym, ◌∙◌, subst, inl, inr, Option, none, some, List, [],
  ◌∷◌, arith, if◌then◌else◌, Bool-cases, Option-cases, Ordering-cases, length, ◌==◌, false, ltb,
  ltb→lt,
}
use model_lib.Prelude.Int.{pos, ℤ-cases}
use model_lib.Prelude.Text.{ByteString}
use model_lib.Util.Bytes.{compare_bytes}
use model_lib.Util.Bytes.Order.{compare_bytes_order, compare_bytes_trans, flip}
use model_lib.Store.Keys.{encode_seq_key, decode_seq_key}
use model_lib.Store.Keys.RoundTrip.{decode_seq_key-encode, compare-encode_seq_key}
use model_lib.Store.Binlog.{Binlog, make, seq, make_fields}
use model_lib.Store.LevelDb.{LevelDb}
use model_lib.Store.Cursor.{Before, Cursors, Least, Greatest}
use model_lib.Store.Queue.{Queue}
use model_lib.Store.Find.{
  Find, one, absent, max_seq, load_at, load_value, step_back, find_last, open_queue, recovered_seq,
}
use model_lib.Store.Find.Sound.{IsEntry, IsSound, Wrote-IsSound}
use model_lib.Store.Impl.{set}
use model_lib.Store.Impl.Kv.{set_lem, del_lem}
use model_lib.Store.Impl.History.{Request, set_key, del_key, step, run, unless_failed}
use model_lib.Store.Impl.Log.{step-last_seq-le}

-- A key below the bound of a search is below every key from the bound on.
Before-not-Before : (j k m : ByteString) → Before j m → ¬ Before k m → Before j k
Before-not-Before j k m h n = elim (Ordering-cases (compare_bytes k m)) [
  | inl e ↦ absurd (n e)
  | inr (inl e) ↦ subst (Before j) (sym ((compare_bytes_order k m).0.0 e)) h
  | inr (inr e) ↦ compare_bytes_trans j m k h ((compare_bytes_order k m).1 ∙ ap flip e)
]

pub not-Before_self : (j : ByteString) → ¬ Before j j
not-Before_self j h = cc (h, (compare_bytes_order j j).0.1 refl)

Before-decided : (j k : ByteString) → Before j k ⊎ (¬ Before j k)
Before-decided j k = elim (Ordering-cases (compare_bytes j k)) [
  | inl e ↦ inl e
  | inr (inl e) ↦ inr (λ h. cc (h, e))
  | inr (inr e) ↦ inr (λ h. cc (h, e))
]

pub Before-seq_key : (a b : ℕ) → a < b → b < 2 ^ 64 → Before (encode_seq_key a) (encode_seq_key b)
Before-seq_key a b h k = compare-encode_seq_key a b (omega arith) k ∙ ground arith

-- A record of the log is found under its key.
pub load_at-entry :
    (L : LevelDb) (d : L.Db) (last : ℕ) (j v : ByteString) (e : IsEntry last j v)
    → last < max_seq
    → L.read d j ≡ some v
    → load_at L d (some j) ≡ one (make e.number e.type e.cmd e.key)
unfolding load_at
load_at-entry L d last j v e h r =
    let small : e.number < 2 ^ 64 = omega (arith, e.small) in
    let decoded : decode_seq_key j ≡ e.number =
      ap decode_seq_key e.at ∙ decode_seq_key-encode e.number small in
    let nonzero : (e.number == 0) ≡ false = ground (arith, e.positive) in
    let loaded = (make_fields e.number e.type e.cmd e.key small).0 in
    rw (decoded, nonzero, if◌then◌else◌, r, e.holds, load_value, loaded) refl

-- The last key of all, where only keys below `m` are stored, is the last one below it.
below_bound :
    (L : LevelDb) (d : L.Db) (m : ByteString) (o : Option ByteString)
    → ((j : ByteString) → ¬ Before j m → L.read d j ≡ none)
    → Greatest L d (λ j. Unit) o
    → Greatest L d (λ j. Before j m) o
below_bound L d m none all g = λ j p. g j tt
below_bound L d m (some k) all (u, n, best) = elim (Before-decided k m) [
  | inl b ↦ (b, n, λ j p q. best j tt q)
  | inr nb ↦ absurd (n (all k nb))
]

-- The last key before the first one from `m` on is the last one below it.
Before-first :
    (L : LevelDb) (d : L.Db) (m k : ByteString) (o : Option ByteString)
    → Least L d (λ j. ¬ Before j m) (some k)
    → Greatest L d (λ j. Before j k) o
    → Greatest L d (λ j. Before j m) o
Before-first L d m k none (nb, n, least) g = λ j p. g j (Before-not-Before j k m p nb)
Before-first L d m k (some i) (nb, n, least) (b, r, best) = elim (Before-decided i m) [
  | inl p ↦ (p, r, λ j q t. best j (Before-not-Before j k m q nb) t)
  | inr q ↦ absurd (least i q r b)
]

step_back-Greatest :
    {L : LevelDb} (C : Cursors L) (d : L.Db) (m : ByteString)
    → Greatest L d (λ j. Before j m) (step_back C d (C.seek d m))
step_back-Greatest {L} C d m = back (C.seek d m) (C.seek_least d m)
  where
    back :
        (o : Option ByteString)
        → Least L d (λ j. ¬ Before j m) o
        → Greatest L d (λ j. Before j m) (step_back C d o)
    back none l = unfold step_back in below_bound L d m (C.seek_to_last d) l (C.last_greatest d)
    back (some k) l = unfold step_back in Before-first L d m k (C.prev d k) l (C.prev_greatest d k)

module _ {L : LevelDb} where
  -- What a sound log says of the last key below UINT64_MAX.
  abbrev pub IsLastFound : Queue L → Find → Type 0
  IsLastFound q f =
      ((q.last_seq ≡ 0) × (f ≡ absent))
      ⊎ ((log : Binlog) × (f ≡ one log) × (0 < seq log) × (seq log ≡ q.last_seq))

  last-found :
      (q : Queue L) (o : Option ByteString)
      → IsSound q
      → Greatest L q.db (λ j. Before j (encode_seq_key max_seq)) o
      → IsLastFound q (load_at L q.db o)
  last-found q none s g = elim (Bool-cases (ltb 0 q.last_seq)) [
    | inl h ↦
        let p = ltb→lt _ _ h in
        absurd (
          s.full q.last_seq p (omega arith) (
            g (encode_seq_key q.last_seq)
              (Before-seq_key q.last_seq max_seq s.small (omega arith))))
    | inr h ↦ inl (ground arith, unfold load_at in refl)
  ]
  last-found q (some k) s (b, n, best) = elim (Option-cases (L.read q.db k)) [
    | inl r ↦ absurd (n r)
    | inr (v, r) ↦
        let e = s.entry k v r (inl (λ h. not-Before_self k (compare_bytes_trans k _ k b h))) in
        let found = load_at-entry L q.db q.last_seq k v e s.small r in
        let last : e.number ≡ q.last_seq = elim (Bool-cases (ltb e.number q.last_seq)) [
          | inl h ↦
              let lt = ltb→lt e.number q.last_seq h in
              let top = Before-seq_key q.last_seq max_seq s.small (omega arith) in
              let stored = s.full q.last_seq (omega arith) (omega arith) in
              absurd (
                best (encode_seq_key q.last_seq) top stored (
                  subst (λ x. Before x (encode_seq_key q.last_seq)) (sym e.at)
                    (Before-seq_key e.number q.last_seq lt (omega (arith, s.small)))))
          | inr h ↦ ground (arith, e.small)
        ] in
        let number =
          (make_fields e.number e.type e.cmd e.key (omega (arith, e.small, s.small))).1 in
        inr (_, found, omega (arith, number, e.positive), number ∙ last)
  ]

  pub find_last-IsLastFound :
      (C : Cursors L) (q : Queue L) → IsSound q → IsLastFound q (find_last C q)
  unfolding find_last
  find_last-IsLastFound C q s =
      last-found q _ s (step_back-Greatest C q.db (encode_seq_key max_seq))

  recovered-IsLastFound : (q : Queue L) (f : Find) → IsLastFound q f → recovered_seq f ≡ q.last_seq
  recovered-IsLastFound q f (inl (z, a)) = rw a (sym z)
  recovered-IsLastFound q f (inr (log, a, p, b)) = rw a b

  -- The constructor of a queue on the database of a sound log finds the last number again.
  open_queue-recovers :
      (C : Cursors L) (q : Queue L) (capacity : ℕ)
      → IsSound q
      → (open_queue C q.db capacity).last_seq ≡ q.last_seq
  unfolding open_queue
  open_queue-recovers C q capacity s =
      recovered-IsLastFound q _
        (last-found q _ s (step_back-Greatest C q.db (encode_seq_key max_seq)))

  step-IsSound :
      (q : Queue L) (r : Request) (n : ℕ)
      → (step q r).0 ≡ pos n
      → q.last_seq + 1 < max_seq
      → IsSound q
      → IsSound (step q r).1
  unfolding step
  step-IsSound q (set_key [] v) n h fits s = unfold set in s
  step-IsSound q (set_key (c ∷ k) v) n h fits s =
      Wrote-IsSound q _ _ (c ∷ k) (some v) ((set_lem q c k v).0 n h) fits s
  step-IsSound q (del_key k) n h fits s = Wrote-IsSound q _ _ k none ((del_lem q k).0 n h) fits s

  -- Requests of which none failed keep the log sound: it has exactly one record for each number up
  -- to the last, and that stays below UINT64_MAX.
  pub run-IsSound :
      (q q' : Queue L) (rs : List Request)
      → run q rs ≡ some q'
      → q.last_seq + length rs < max_seq
      → IsSound q
      → IsSound q'
  run-IsSound q q' [] h fits s = subst IsSound (some-injective _ _ h) s
  run-IsSound q q' (r ∷ rs) h fits s = elim (ℤ-cases (step q r).0) [
    | inl (n, e) ↦
        run-IsSound (step q r).1 q' rs (rw (e, unless_failed) at h)
          (omega (arith, step-last_seq-le q r n e)) (step-IsSound q r n e (omega arith) s)
    | inr (n, e) ↦ cc (rw (e, unless_failed) at h)
  ]

  -- A server that is started again goes on with its log: after requests of which none failed the
  -- constructor of a new queue on the database finds the last sequence number, if the log was sound
  -- before and the numbers stay below UINT64_MAX.
  pub run-open_queue :
      (C : Cursors L) (q q' : Queue L) (rs : List Request) (capacity : ℕ)
      → run q rs ≡ some q'
      → q.last_seq + length rs < max_seq
      → IsSound q
      → (open_queue C q'.db capacity).last_seq ≡ q'.last_seq
  run-open_queue C q q' rs capacity h fits s =
      open_queue-recovers C q' capacity (run-IsSound q q' rs h fits s)
