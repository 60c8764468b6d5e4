-- ===== src/Store/Find/Next.antt =====
-- `find_next` on a sound log.
use mathlib.Core.Option.{some-injective}
use model_lib.Prelude.{
  ℕ, ◌≤◌, ◌<◌, ◌≡◌, ◌≢◌, ◌⊎◌, refl, ap, sym, ◌∙◌, subst, inl, inr, Option, none, some, arith,
  if◌then◌else◌, Bool-cases, Option-cases, Ordering-cases, ◌==◌, ==_iff, ltb, ltb→lt,
}
use model_lib.Prelude.Text.{ByteString}
use model_lib.Util.Bytes.{compare_bytes}
use model_lib.Util.Bytes.Order.{compare_bytes_order, flip}
use model_lib.Store.Keys.{encode_seq_key, decode_seq_key}
use model_lib.Store.Keys.RoundTrip.{decode_seq_key-encode, encode_seq_key-injective}
use model_lib.Store.Binlog.{Binlog, make, repr, load, seq, make_fields}
use model_lib.Store.LevelDb.{LevelDb, Got, found, not_found, failed, Agrees}
use model_lib.Store.Cursor.{Before, Cursors, Least}
use model_lib.Store.Queue.{Queue}
use model_lib.Store.Find.{Find, one, absent, max_seq, load_at, load_got, got_or, get_log, find_next}
use model_lib.Store.Find.Sound.{IsEntry, IsSound}
use model_lib.Store.Find.Recovery.{Before-seq_key, not-Before_self, load_at-entry}

-- `f` is the record that the log of `q` has under the number `n`.
pub record IsFoundAt {L : LevelDb} (q : Queue L) (n : ℕ) (f : Find) : Type 0 where
  pub log : Binlog
  pub result : f ≡ one log
  pub number : seq log ≡ n
  pub stored : L.read q.db (encode_seq_key n) ≡ some (repr log)

module _ {L : LevelDb} (q : Queue L) (s : IsSound q) (n : ℕ) (pos : 0 < n)
    (fits : n < max_seq) where
  -- The record that stands under the number `n`.
  entry-at :
      (v : ByteString)
      → L.read q.db (encode_seq_key n) ≡ some v
      → (e : IsEntry q.last_seq (encode_seq_key n) v) × (e.number ≡ n)
  entry-at v r =
      let decoded : decode_seq_key (encode_seq_key n) ≢ 0 =
        λ z. omega (arith, decode_seq_key-encode n (omega arith), z) in
      let e = s.entry (encode_seq_key n) v r (inr decoded) in
      (
        e,
        sym (
            encode_seq_key-injective n e.number (omega arith) (omega (arith, e.small, s.small))
              e.at),
      )

  -- `Seek` on a record that is there: the cursor stands on it.
  seek-found :
      (v : ByteString) (e : IsEntry q.last_seq (encode_seq_key n) v) (o : Option ByteString)
      → L.read q.db (encode_seq_key n) ≡ some v
      → Least L q.db (λ j. ¬ Before j (encode_seq_key n)) o
      → load_at L q.db o ≡ one (make e.number e.type e.cmd e.key)
  seek-found v e none r l = cc (r, l (encode_seq_key n) (not-Before_self (encode_seq_key n)))
  seek-found v e (some k) r (nb, st, least) =
      let here = least (encode_seq_key n) (not-Before_self (encode_seq_key n)) (λ z. cc (r, z)) in
      elim (Ordering-cases (compare_bytes k (encode_seq_key n))) [
        | inl b ↦ absurd (nb b)
        | inr (inl b) ↦
            subst (λ x. load_at L q.db (some x) ≡ one (make e.number e.type e.cmd e.key))
              (sym ((compare_bytes_order k (encode_seq_key n)).0.0 b))
              (load_at-entry L q.db q.last_seq (encode_seq_key n) v e s.small r)
        | inr (inr b) ↦ absurd (here ((compare_bytes_order k (encode_seq_key n)).1 ∙ ap flip b))
      ]

  -- Behind the last number there is no key of the log.
  seek-absent :
      (o : Option ByteString)
      → q.last_seq < n
      → Least L q.db (λ j. ¬ Before j (encode_seq_key n)) o
      → load_at L q.db o ≡ absent
  unfolding load_at
  seek-absent none h l = refl
  seek-absent (some k) h (nb, st, least) = elim (Bool-cases (decode_seq_key k == 0)) [
    | inl z ↦ rw (z, if◌then◌else◌) refl
    | inr z ↦ elim (Option-cases (L.read q.db k)) [
      | inl r ↦ absurd (st r)
      | inr (v, r) ↦
          let e = s.entry k v r (inr (λ i. cc (z, (==_iff (decode_seq_key k) 0).1 i))) in
          absurd (
            nb (
              subst (λ x. Before x (encode_seq_key n)) (sym e.at)
                (Before-seq_key e.number n (omega (arith, e.small, h)) (omega arith))))
    ]
  ]

  -- What `get` loads is the record of the number.
  get_log-stored :
      (log : Binlog)
      → get_log q n ≡ some log
      → (seq log ≡ n) × (L.read q.db (encode_seq_key n) ≡ some (repr log)) × (n ≤ q.last_seq)
  unfolding get_log
  get_log-stored log h = go (L.get q.db (encode_seq_key n)) (L.get_agrees q.db (encode_seq_key n)) h
    where
      go :
          (g : Got)
          → Agrees g (L.read q.db (encode_seq_key n))
          → load_got g ≡ some log
          → (seq log ≡ n) × (L.read q.db (encode_seq_key n) ≡ some (repr log)) × (n ≤ q.last_seq)
      go (found w) a h =
          let (e, same) = entry-at w a in
          let fields = make_fields e.number e.type e.cmd e.key (omega (arith, e.small, s.small)) in
          let is : log ≡ make e.number e.type e.cmd e.key =
            some-injective _ _ (sym h ∙ ap load e.holds ∙ fields.0) in
          (
            ap seq is ∙ fields.1 ∙ same,
            a ∙ ap some e.holds ∙ ap (λ r. some (repr r)) (sym is),
            omega (arith, e.small, same),
          )
      go not_found a h = cc h
      go failed a h = cc h

  -- The cursor finds the record of the number, or there is none.
  pub seek-either :
      (C : Cursors L)
      → ((n ≤ q.last_seq) × IsFoundAt q n (load_at L q.db (C.seek q.db (encode_seq_key n))))
        ⊎ ((q.last_seq < n) × (load_at L q.db (C.seek q.db (encode_seq_key n)) ≡ absent))
  seek-either C = elim (Bool-cases (ltb q.last_seq n)) [
    | inl b ↦
        let h = ltb→lt q.last_seq n b in
        inr (h, seek-absent _ h (C.seek_least q.db (encode_seq_key n)))
    | inr b ↦
        let h : n ≤ q.last_seq = ground arith in
        elim (Option-cases (L.read q.db (encode_seq_key n))) [
          | inl r ↦ absurd (s.full n pos h r)
          | inr (v, r) ↦
              let (e, same) = entry-at v r in
              inl (
                h,
                record {
                  log = make e.number e.type e.cmd e.key;
                  result = seek-found v e _ r (C.seek_least q.db (encode_seq_key n));
                  number =
                      (make_fields e.number e.type e.cmd e.key (omega (arith, e.small, s.small))).1
                      ∙ same;
                  stored = r ∙ ap some e.holds;
                },
              )
        ]
  ]

module _ {L : LevelDb} (C : Cursors L) (n : ℕ) (pos : 0 < n) (fits : n < max_seq) where
  -- `find_next` while other threads write, where the log is sound at both reads: it finds the record that
  -- the log has under the number at one of them, or nothing where the number is behind the last one at
  -- the second.
  pub find_next-either :
      (q q' : Queue L)
      → IsSound q
      → IsSound q'
      → ((n ≤ q.last_seq) × IsFoundAt q n (find_next C q q' n))
        ⊎ ((n ≤ q'.last_seq) × IsFoundAt q' n (find_next C q q' n))
        ⊎ ((q'.last_seq < n) × (find_next C q q' n ≡ absent))
  unfolding find_next
  find_next-either q q' s s' = elim (Option-cases (get_log q n)) [
    | inl g ↦ elim (seek-either q' s' n pos fits C) [
      | inl (h, f) ↦ inr (
          inl (
            h,
            record {
              log = f.log;
              result = rw (g, got_or) f.result;
              number = f.number;
              stored = f.stored;
            },
          ))
      | inr (h, f) ↦ inr (inr (h, rw (g, got_or) f))
    ]
    | inr (log, g) ↦
        let (number, stored, h) = get_log-stored q s n pos fits log g in
        inl
          (h, record { log = log; result = rw (g, got_or) refl; number = number; stored = stored })
  ]

module _ {L : LevelDb} (q : Queue L) (s : IsSound q) (n : ℕ) (pos : 0 < n)
    (fits : n < max_seq) where
  -- On a sound log `find_next` finds the record of the number it is asked for, and nothing behind the
  -- last number, whether the read or the cursor answers, where nothing is written between the two. The
  -- number is not 0 and below UINT64_MAX.
  pub find_next-found :
      (C : Cursors L)
      → ((n ≤ q.last_seq) × IsFoundAt q n (find_next C q q n))
        ⊎ ((q.last_seq < n) × (find_next C q q n ≡ absent))
  find_next-found C = elim (find_next-either C n pos fits q q s s) [
    | inl f ↦ inl f
    | inr (inl f) ↦ inl f
    | inr (inr f) ↦ inr f
  ]
