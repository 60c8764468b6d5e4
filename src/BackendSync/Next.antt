-- ===== src/BackendSync/Next.antt =====
-- What `sync` finds in a sound log, that it returns, and what it sends.
use model_lib.Prelude.{
  ℕ, zero, suc, ◌+◌, ◌-◌, ◌%◌, ◌^◌, ◌≤◌, ◌<◌, ◌≡◌, ◌⊎◌, refl, inl, inr, Option, none, some, arith,
  if◌then◌else◌, Bool-cases, ◌==◌, ==_iff, true, false, ◌&&◌, not, leb, [],
}
use model_lib.Store.Const.BinlogType
use model_lib.Store.Keys.{encode_seq_key}
use model_lib.Store.Binlog
use model_lib.Store.Binlog.{Binlog, repr, seq}
use model_lib.Store.LevelDb.{LevelDb}
use model_lib.Store.Cursor.{Cursors}
use model_lib.Store.Queue.{Queue}
use model_lib.Store.Find.{Find, one, absent, max_seq, find_next}
use model_lib.Store.Find.Sound.{IsSound}
use model_lib.Store.Find.Recovery.{find_last-IsLastFound}
use model_lib.Store.Find.Next.{IsFoundAt, find_next-either}
use model_lib.Store.Impl.{raw_get}
use model_lib.BackendSync.State.{is_copy}
use model_lib.BackendSync.Sent.{IsSentFor, log_message-IsSentFor}
use model_lib.BackendSync.{
  Client, Outcome, returned, broken, out_of_fuel, log_message, expect_seq, find_log, use_log,
  at_log, after, sync_loop, sync, with_found,
}

module _ {L : LevelDb} where
  abbrev pub Returns : Outcome L → Type 0
  Returns (returned ret c sent) = Unit
  Returns broken = ⊥
  Returns out_of_fuel = ⊥

  -- The client went on by one record, which the log has at the read or at the cursor, and sent what that
  -- asks for, with the value that the third access to the store finds.
  pub record SentNext (view : ℕ → Queue L) (c : Client L) (o : Outcome L) : Type 0 where
    pub log : Binlog
    pub number : seq log ≡ c.last_seq + 1
    pub stored :
        (L.read (view 0).db (encode_seq_key (c.last_seq + 1)) ≡ some (repr log))
        ⊎ (L.read (view 1).db (encode_seq_key (c.last_seq + 1)) ≡ some (repr log))
    pub sent_for : IsSentFor (view 2) log (log_message log (raw_get (view 2) (Binlog.key log) []))
    pub result :
        o
        ≡ returned 0
            (record c { last_seq = c.last_seq + 1 })
            (log_message log (raw_get (view 2) (Binlog.key log) []))

module _ {L : LevelDb} (C : Cursors L) where
  -- The search either ends, or goes forward in the log.
  abbrev IsForward : ℕ → Client L → Find → Type 0
  IsForward bound c f =
      (f ≡ absent) ⊎ ((log : Binlog) × (f ≡ one log) × (c.last_seq < seq log) × (seq log ≤ bound))

  find_log-IsForward :
      (bound : ℕ) (q q' : Queue L) (c : Client L)
      → IsSound q × (q.last_seq ≤ bound)
      → IsSound q' × (q'.last_seq ≤ bound)
      → c.last_seq + 1 < max_seq
      → IsForward bound c (find_log C c q q')
  unfolding find_log
  find_log-IsForward bound q q' c (s, small) (s', small') fits =
      elim (Bool-cases (is_copy c.status && c.last_seq == 0)) [
        | inl e ↦
            rw (e, if◌then◌else◌)
              (elim (find_last-IsLastFound C q s) [
                | inl (z, a) ↦ inl a
                | inr (log, a, p, b) ↦ inr (log, a, ground (arith, e, p), omega (arith, b, small))
              ])
        | inr e ↦
            let next : expect_seq c ≡ c.last_seq + 1 = omega arith in
            rw (e, if◌then◌else◌, next)
              (elim (find_next-either C (c.last_seq + 1) (omega arith) fits q q' s s') [
                | inl (h, f) ↦
                    inr
                      (f.log, f.result, omega (arith, f.number), omega (arith, f.number, h, small))
                | inr (inl (h, f)) ↦
                    inr
                      (f.log, f.result, omega (arith, f.number), omega (arith, f.number, h, small'))
                | inr (inr (h, f)) ↦ inl f
              ])
      ]

  -- A round returns if the round behind it does.
  use_log-Returns :
      (again : Client L → Outcome L) (c : Client L) (log : Binlog) (q : Queue L)
      → Returns (again c)
      → Returns (use_log C again c log q)
  unfolding use_log
  use_log-Returns again c log q h =
      elim (Bool-cases (Binlog.type log == BinlogType.mirror && c.is_mirror)) [
        | inl e ↦ elim (Bool-cases (leb 1000 ((c.last_seq + 2 ^ 64 - c.last_noop_seq) % 2 ^ 64))) [
          | inl l ↦ rw (e, if◌then◌else◌, l) tt
          | inr l ↦ rw (e, if◌then◌else◌, l) h
        ]
        | inr e ↦ rw (e, if◌then◌else◌) tt
      ]

  at_log-Returns :
      (again : Client L → Outcome L) (c : Client L) (log : Binlog) (q : Queue L)
      → ((c' : Client L) → c'.last_seq ≡ seq log → Returns (again c'))
      → Returns (at_log C again c log q)
  unfolding at_log
  at_log-Returns again c log q h =
      elim (Bool-cases (is_copy c.status && after (Binlog.key log) c.last_key)) [
        | inl e ↦ rw (e, if◌then◌else◌) (h _ refl)
        | inr e ↦ elim (Bool-cases (not (c.last_seq == 0) && not (seq log == expect_seq c))) [
          | inl l ↦ rw (e, if◌then◌else◌, l) tt
          | inr l ↦
              rw (e, if◌then◌else◌, l)
                (use_log-Returns again (record c { last_seq = seq log }) log q (h _ refl))
        ]
      ]

  loop-Returns :
      (fuel i : ℕ) (view : ℕ → Queue L) (old : Option Binlog) (c : Client L) (bound : ℕ)
      → ((n : ℕ) → IsSound (view n) × ((view n).last_seq ≤ bound))
      → bound + 1 < max_seq
      → c.last_seq ≤ bound
      → bound < c.last_seq + fuel
      → Returns (sync_loop C fuel i view old c)
  unfolding sync_loop
  loop-Returns zero i view old c bound s fits low enough = absurd (omega arith)
  loop-Returns (suc fuel) i view old c bound s fits low enough =
      elim (find_log-IsForward bound (view i) (view (i + 1)) c (s i) (s (i + 1)) (omega arith)) [
        | inl e ↦ rw (Returns, e, with_found) tt
        | inr (log, e, more, small) ↦
            rw (e, with_found)
              (at_log-Returns _ c log (view (i + 2)) (λ c' same.
                loop-Returns fuel (i + 3) view (some log) c' bound s fits
                  (omega (arith, same, small)) (omega (arith, same, more))))
      ]

  -- `sync` returns, and uses no record that was not loaded, while other threads write: if the log is
  -- sound whenever it is read and ends at `bound`, one round for each number behind the client's and
  -- one more are enough.
  pub sync-Returns :
      (fuel : ℕ) (view : ℕ → Queue L) (c : Client L) (bound : ℕ)
      → ((n : ℕ) → IsSound (view n) × ((view n).last_seq ≤ bound))
      → bound + 1 < max_seq
      → c.last_seq ≤ bound
      → bound < c.last_seq + fuel
      → Returns (sync C fuel view c)
  sync-Returns fuel view c bound s fits low enough =
      unfold sync in loop-Returns fuel 0 view none c bound s fits low enough

  at_log-next :
      (again : Client L → Outcome L) (c : Client L) (log : Binlog) (q : Queue L)
      → is_copy c.status ≡ false
      → c.is_mirror ≡ false
      → seq log ≡ c.last_seq + 1
      → c.last_seq + 1 < max_seq
      → at_log C again c log q
        ≡ returned 0
            (record c { last_seq = c.last_seq + 1 })
            (log_message log (raw_get q (Binlog.key log) []))
  unfolding at_log use_log
  at_log-next again c log q st mi number fits =
      let next : (seq log == expect_seq c) ≡ true =
        (==_iff (seq log) (expect_seq c)).1 (omega (arith, number)) in
      let no_mirror : (Binlog.type log == BinlogType.mirror && c.is_mirror) ≡ false =
        ground (arith, mi) in
      let in_order : (not (c.last_seq == 0) && not (seq log == expect_seq c)) ≡ false =
        ground (arith, next) in
      rw (st, in_order, if◌then◌else◌, no_mirror) (rw number refl)

  found-SentNext :
      (fuel : ℕ) (view : ℕ → Queue L) (c : Client L) (q : Queue L)
      → is_copy c.status ≡ false
      → c.is_mirror ≡ false
      → c.last_seq + 1 < max_seq
      → (f : IsFoundAt q (c.last_seq + 1) (find_next C (view 0) (view 1) (c.last_seq + 1)))
      → (L.read (view 0).db (encode_seq_key (c.last_seq + 1)) ≡ some (repr f.log))
        ⊎ (L.read (view 1).db (encode_seq_key (c.last_seq + 1)) ≡ some (repr f.log))
      → SentNext view c (sync C (suc fuel) view c)
  unfolding sync_loop find_log
  found-SentNext fuel view c q st mi fits f stored =
      let next : expect_seq c ≡ c.last_seq + 1 = omega arith in
      record {
        log = f.log;
        number = f.number;
        stored = stored;
        sent_for = log_message-IsSentFor (view 2) f.log;
        result =
            unfold sync in
            rw (st, if◌then◌else◌, next, f.result, with_found)
              (at_log-next (sync_loop C fuel 3 view (some f.log)) c f.log (view 2) st mi f.number
                fits);
      }

  -- A client that is no mirror and has no copy to make is never out of step with a log that is sound at
  -- both reads of it: `sync` goes on to the next record and sends what it asks for (of a set, the record
  -- and the value that the store has then, unless it has none or LevelDB fails to read; of a deletion, the
  -- record; of any other command, nothing), or returns with nothing sent where there is no next record at
  -- the second read. The number of the record is below UINT64_MAX.
  pub sync-SentNext :
      (fuel : ℕ) (view : ℕ → Queue L) (c : Client L)
      → is_copy c.status ≡ false
      → c.is_mirror ≡ false
      → IsSound (view 0)
      → IsSound (view 1)
      → c.last_seq + 1 < max_seq
      → (((c.last_seq < (view 0).last_seq) ⊎ (c.last_seq < (view 1).last_seq))
          × SentNext view c (sync C (suc fuel) view c))
        ⊎ (((view 1).last_seq ≤ c.last_seq) × (sync C (suc fuel) view c ≡ returned 0 c []))
  unfolding sync_loop find_log
  sync-SentNext fuel view c st mi s s' fits =
      let next : expect_seq c ≡ c.last_seq + 1 = omega arith in
      elim (find_next-either C (c.last_seq + 1) (omega arith) fits (view 0) (view 1) s s') [
        | inl (h, f) ↦ inl (
          inl (omega (arith, h)),
          found-SentNext fuel view c (view 0) st mi fits f (inl f.stored),
        )
        | inr (inl (h, f)) ↦ inl (
          inr (omega (arith, h)),
          found-SentNext fuel view c (view 1) st mi fits f (inr f.stored),
        )
        | inr (inr (h, f)) ↦
            inr (omega (arith, h), unfold sync in rw (st, if◌then◌else◌, next, f, with_found) refl)
      ]
