-- ===== src/Replication/Bootstrap/Refresh.antt =====
-- What `BackendSync::Client::sync` of ssdb/src/backend_sync.cpp does for a client that is to make a copy, or
-- that is at the end of the log.
use model_lib.Prelude.{
  ℕ, suc, ◌+◌, ◌<◌, ◌≡◌, ◌≢◌, refl, sym, ap, ◌∙◌, inl, inr, none, some, true, ◌&&◌, [], ◌∷◌, ◌==◌,
  arith, if◌then◌else◌, Bool-cases,
}
use model_lib.Prelude.Text.{ByteString}
use model_lib.Util.Bytes.Order.{compare_bytes-lex, lex}
use model_lib.Store.Binlog
use model_lib.Store.Binlog.{Binlog, seq}
use model_lib.Store.LevelDb.{LevelDb}
use model_lib.Store.Cursor.{Cursors}
use model_lib.Store.Queue.{Queue}
use model_lib.Store.Find.{one, absent, max_seq, find_last}
use model_lib.Store.Find.Sound.{IsSound}
use model_lib.Store.Find.Recovery.{find_last-IsLastFound}
use model_lib.Store.Find.Next.{find_next-found}
use model_lib.BackendSync.{
  Client, Outcome, returned, sync, sync_loop, find_log, expect_seq, with_found, at_log, after,
}
use model_lib.BackendSync.State.{is_copy}

module _ {L : LevelDb} (C : Cursors L) (q : Queue L) (s : IsSound q)
    (fits : q.last_seq + 1 < max_seq) where
  -- A client at the end of the log finds nothing.
  find_log-level : (c : Client L) → c.last_seq ≡ q.last_seq → find_log C c q q ≡ absent
  unfolding find_log
  find_log-level c h = elim (Bool-cases (is_copy c.status && c.last_seq == 0)) [
    | inl e ↦
        rw (e, if◌then◌else◌)
          (elim (find_last-IsLastFound C q s) [
            | inl (z, a) ↦ a
            | inr (log, a, p, b) ↦ absurd (ground (arith, e, p, h))
          ])
    | inr e ↦
        let next : expect_seq c ≡ c.last_seq + 1 = omega (arith, h) in
        rw (e, if◌then◌else◌, next)
          (elim (find_next-found q s (c.last_seq + 1) (omega arith) (omega (arith, h)) C) [
            | inl (l, f) ↦ absurd (omega (arith, l, h))
            | inr (l, f) ↦ f
          ])
  ]

  pub sync-level :
      (fuel : ℕ) (c : Client L)
      → c.last_seq ≡ q.last_seq
      → sync C (suc fuel) (λ i. q) c ≡ returned 0 c []
  unfolding sync sync_loop
  sync-level fuel c h = rw (find_log-level c h, with_found) refl

  -- A client that is to make a copy takes the number of the last record over.
  pub record Refreshed (c : Client L) (o : Outcome L) : Type 0 where
    pub client : Client L
    pub result : o ≡ returned 0 client []
    pub status : client.status ≡ c.status
    pub last_key : client.last_key ≡ c.last_key
    pub iter : client.iter ≡ none
    pub last_seq : client.last_seq ≡ q.last_seq
    pub is_mirror : client.is_mirror ≡ c.is_mirror

  find_log-first :
      (c : Client L) (log : Binlog)
      → is_copy c.status ≡ true
      → c.last_seq ≡ 0
      → find_last C q ≡ one log
      → find_log C c q q ≡ one log
  unfolding find_log
  find_log-first c log st z e = rw (st, z, if◌then◌else◌) e

  after-empty : (k : ByteString) → k ≢ [] → after k [] ≡ true
  after-empty [] h = absurd (h refl)
  after-empty (a ∷ k) h = rw (compare_bytes-lex (a ∷ k) [], after) (unfold lex in refl)

  at_log-dropped :
      (again : Client L → Outcome L) (c : Client L) (log : Binlog)
      → is_copy c.status ≡ true
      → after (Binlog.key log) c.last_key ≡ true
      → at_log C again c log q ≡ again (record c { last_seq = seq log; iter = none })
  unfolding at_log
  at_log-dropped again c log st a = rw (st, a, if◌then◌else◌) refl

  pub sync-Refreshed :
      (fuel : ℕ) (c : Client L)
      → is_copy c.status ≡ true
      → c.last_seq ≡ 0
      → c.last_key ≡ []
      → c.iter ≡ none
      → ((log : Binlog) → find_last C q ≡ one log → Binlog.key log ≢ [])
      → Refreshed c (sync C (suc (suc fuel)) (λ i. q) c)
  unfolding sync sync_loop
  sync-Refreshed fuel c st zero_seq key it keyed = elim (find_last-IsLastFound C q s) [
    | inl (z, a) ↦ record {
      client = c;
      result = unfold sync in sync-level (suc fuel) c (zero_seq ∙ sym z);
      status = refl;
      last_key = refl;
      iter = it;
      last_seq = zero_seq ∙ sym z;
      is_mirror = refl;
    }
    | inr (log, a, p, b) ↦
        let c' = record c { last_seq = seq log; iter = none } in
        let later = ap (after (Binlog.key log)) key ∙ after-empty (Binlog.key log) (keyed log a) in
        record {
          client = c';
          result =
              rw (find_log-first c log st zero_seq a, with_found)
                (at_log-dropped (sync_loop C (suc fuel) 3 (λ i. q) (some log)) c log st later
                  ∙ rw (find_log-level c' b, with_found) refl);
          status = refl;
          last_key = refl;
          iter = refl;
          last_seq = b;
          is_mirror = refl;
        }
  ]
