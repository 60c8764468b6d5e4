-- ===== src/Replication/Bootstrap.antt =====
-- A replica that is new to a store: `BackendSync::Client` of ssdb/src/backend_sync.cpp makes a copy for it.
mod Refresh
mod Calls
use model_lib.Prelude.{
  ℕ, zero, suc, ◌+◌, ◌*◌, ◌-◌, ◌^◌, ◌≤◌, ◌<◌, ◌≡◌, ◌≢◌, ◌⊎◌, refl, sym, ap, ◌∙◌, subst, inl, inr,
  Option, none, some, Bool, true, false, not, ◌&&◌, List, [], ◌∷◌, ◌++◌, ◌==◌, ==_iff, arith,
  length, if◌then◌else◌, Bool-cases,
}
use model_lib.Prelude.Text.{ByteString}
use model_lib.Util.Bytes.{compare_bytes}
use model_lib.Util.Bytes.Order.{compare_bytes-lex, lex}
use model_lib.Store.Const.DataType
use model_lib.Store.Keys.{encode_kv_key}
use model_lib.Store.Binlog
use model_lib.Store.Binlog.{Binlog, seq}
use model_lib.Store.LevelDb.{LevelDb, Op}
use model_lib.Store.Cursor.{Before, Cursors}
use model_lib.Store.Queue.{Queue}
use model_lib.Store.Find.{Find, one, absent, max_seq, find_last}
use model_lib.Store.Find.Sound.{IsSound}
use model_lib.Store.Find.Recovery.{find_last-IsLastFound}
use model_lib.Store.Find.Next.{find_next-found}
use model_lib.Store.Impl.History.{Dict, value}
use model_lib.Store.Iterator.Listed.{IsListed, behind, behind-le_length}
use model_lib.BackendSync
use model_lib.BackendSync.{
  Client, Message, Outcome, returned, sync, sync_loop, find_log, expect_seq, with_found, at_log,
  after, reset, round, copy, sent_before, copy_loop, copy_from, and_copy,
}
use model_lib.BackendSync.State.{Status, is_copy, is_out_of_sync}
use model_lib.Slave.{Slave, status_sync}
use model_lib.Replication.{deliver, thread, answered}
use model_lib.Replication.Apply.{proc-copy-begin}
use model_lib.Replication.Copy.{or_else}
use model_lib.Replication.Copy.Step.{Copying, Ended, GoesOn}
use model_lib.Replication.Copy.Loop.{copy_loop-Result}
use model_lib.Store.Iterator
use model_lib.Store.Iterator.{Iterator, iterator}
use model_lib.Store.Iterator.Range.{iterator-ahead}
use model_lib.Store.Iterator.Walk.{IsAt}
use model_lib.Replication.Copy.{Copied}
use model_lib.Replication.Copy.Step.{Result, Kept}
use model_lib.Replication.Bootstrap.Refresh.{Refreshed, sync-level, sync-Refreshed}
use model_lib.Replication.Bootstrap.Calls.{copy-Result, copy-first, round-copy, round-sync}

module _ {L M : LevelDb} (C : Cursors L) (fuel : ℕ) (q : Queue L) where
  thread-next :
      (n ret : ℕ) (c c' : Client L) (s : Slave M) (sent : List Message)
      → round C (suc (suc fuel)) (λ i. q) q c ≡ returned ret c' sent
      → thread C fuel q (suc n) c s ≡ thread C fuel q n c' (deliver s sent)
  unfolding thread
  thread-next n ret c c' s sent e =
      ap (λ o. thread C fuel q n (answered C fuel q c s o).0 (answered C fuel q c s o).1) e

  -- The copy is made: the client follows the log from its end, and the replica has every value of the
  -- store, and its own where the store has none.
  pub record IsCopied (base : Dict) (mirror : Bool) (r : Client L × Slave M) : Type 0 where
    pub status : r.0.status ≡ Status.sync
    pub last_seq : r.0.last_seq ≡ q.last_seq
    pub slave : r.1.status ≡ status_sync
    pub is_mirror : r.0.is_mirror ≡ mirror
    pub level : (j : ByteString) → value r.1.ssdb j ≡ or_else (value q j) (base j)

  module _ (base : Dict) (mirror : Bool) (s : IsSound q) (fits : q.last_seq + 1 < max_seq) where
    -- Once the copy is made nothing more is sent.
    rest-IsCopied :
        (n : ℕ) (c : Client L) (r : Slave M)
        → IsCopied base mirror (c, r)
        → IsCopied base mirror (thread C fuel q n c r)
    unfolding thread deliver
    rest-IsCopied zero c r d = d
    rest-IsCopied (suc n) c r d =
        subst (IsCopied base mirror)
          (sym (
            thread-next n 0 c c r [] (
              round-sync C q (suc (suc fuel)) c d.status
                (sync-level C q s fits (suc fuel) c d.last_seq))))
          (rest-IsCopied n c r d)

    module _ (all : List ByteString) (listed : IsListed (L.read q.db) all)
        (no_empty : value q [] ≡ none)
        (reliable : (d : M.Db) (b : List Op) → (M.write d b).0 ≡ true) where
      -- A copy that has come to `start` is made within a round for every thousand keys that are left.
      copying-IsCopied :
          (n : ℕ) (start : ByteString) (k : ℕ) (c : Client L) (t : Iterator L) (r : Slave M)
          → c.status ≡ Status.copy
          → c.last_seq ≡ q.last_seq
          → c.is_mirror ≡ mirror
          → c.iter ≡ some t
          → Copying C q all base start k t r
          → behind all start < 1000 * n
          → IsCopied base mirror (thread C fuel q n c r)
      copying-IsCopied zero start k c t r st at mi it co few = absurd (omega arith)
      copying-IsCopied (suc n) start k c t r st at mi it co few =
          let (ret, c', sent, made, kept, out) =
            copy-Result C q all listed no_empty reliable base start k c t r
              (omega (arith, at, s.small)) it co in
          let one =
            round-copy C q (suc (suc fuel)) ret c c c' sent st
              (sync-level C q s fits (suc fuel) c at) st made in
          subst (IsCopied base mirror) (sym (thread-next n ret c c' r sent one)) (elim out [
            | inl e ↦ rest-IsCopied n c' (deliver r sent) (record {
              status = e.status;
              last_seq = kept.last_seq ∙ at;
              slave = e.slave;
              is_mirror = kept.is_mirror ∙ mi;
              level = e.level;
            })
            | inr g ↦
                copying-IsCopied n g.start' g.n c' g.t (deliver r sent) (g.same ∙ st)
                  (kept.last_seq ∙ at) (kept.is_mirror ∙ mi) g.iter g.copying
                  (omega (arith, g.fewer))
          ])

module _ {L M : LevelDb} where
  -- The first round takes the last number over and makes the iterator.
  first-IsCopied :
      (C : Cursors L) (fuel n : ℕ) (q : Queue L) (all : List ByteString) (c : Client L)
      (r : Slave M)
      → IsSound q
      → q.last_seq + 1 < max_seq
      → ((log : Binlog) → find_last C q ≡ one log → Binlog.key log ≢ [])
      → IsListed (L.read q.db) all
      → value q [] ≡ none
      → length all < 2 ^ 64 - 1
      → length all < 1000 * n
      → ((d : M.Db) (b : List Op) → (M.write d b).0 ≡ true)
      → c.status ≡ Status.copy
      → c.last_seq ≡ 0
      → c.last_key ≡ []
      → c.iter ≡ none
      → IsCopied C fuel q (value r.ssdb) c.is_mirror (thread C fuel q n c r)
  first-IsCopied C fuel zero q all c r s fits keyed listed no_empty few enough reliable st z key
        it =
      absurd (omega arith)
  first-IsCopied C fuel (suc n) q all c r s fits keyed listed no_empty few enough reliable st z key
        it =
      let start = DataType.min_prefix ∷ [] in
      let f = sync-Refreshed C q s fits fuel c (ap is_copy st) z key it keyed in
      let st1 = f.status ∙ st in
      let (ret, c', sent, made, kept, out) =
        copy-first C q all listed no_empty reliable f.client r (omega (arith, f.last_seq, s.small))
          f.iter (f.last_key ∙ key) few in
      let one = round-copy C q (suc (suc fuel)) ret c f.client c' sent st f.result st1 made in
      subst (IsCopied C fuel q (value r.ssdb) c.is_mirror)
        (sym (thread-next C fuel q n ret c c' r sent one))
        (elim out [
          | inl e ↦
              rest-IsCopied C fuel q (value r.ssdb) c.is_mirror s fits n c' (deliver r sent)
                (record {
                  status = e.status;
                  last_seq = kept.last_seq ∙ f.last_seq;
                  slave = e.slave;
                  is_mirror = kept.is_mirror ∙ f.is_mirror;
                  level = e.level;
                })
          | inr g ↦
              copying-IsCopied C fuel q (value r.ssdb) c.is_mirror s fits all listed no_empty
                reliable n g.start' g.n c' g.t (deliver r sent) (g.same ∙ st1)
                (kept.last_seq ∙ f.last_seq) (kept.is_mirror ∙ f.is_mirror) g.iter g.copying
                (omega (arith, g.fewer, behind-le_length all start))
        ])

  same_store : (c : Client L) (r : Slave M) → (deliver r (reset c).1).ssdb ≡ r.ssdb
  unfolding deliver reset
  same_store c r = proc-copy-begin r _

  -- A replica that is new to a store gets a copy of it. From the reset that a client without a position
  -- begins with, one round of its thread for every thousand keys of the database and one more end the
  -- copy: the client then follows the log from its end, the replica knows that it does, and at every key
  -- it has the value of the store, or its own where the store has none. The client's iterator is NULL at
  -- the reset, which its constructor leaves to chance. The store takes no writes meanwhile, its log is
  -- sound and its last record has a key, it has no empty key, its keys are listed and fewer than
  -- 2^64 - 1, the last number is below UINT64_MAX - 1, and the replica's database does not fail to write.
  pub bootstrap :
      (C : Cursors L) (fuel n : ℕ) (q : Queue L) (all : List ByteString) (c : Client L)
      (r : Slave M)
      → IsSound q
      → q.last_seq + 1 < max_seq
      → ((log : Binlog) → find_last C q ≡ one log → Binlog.key log ≢ [])
      → IsListed (L.read q.db) all
      → value q [] ≡ none
      → length all < 2 ^ 64 - 1
      → length all < 1000 * n
      → ((d : M.Db) (b : List Op) → (M.write d b).0 ≡ true)
      → c.iter ≡ none
      → IsCopied C fuel q
          (value r.ssdb)
          c.is_mirror
          (thread C fuel q n (reset c).0 (deliver r (reset c).1))
  unfolding reset
  bootstrap C fuel n q all c r s fits keyed listed no_empty few enough reliable it =
      let r' = deliver r (reset c).1 in
      subst (λ p. IsCopied C fuel q (value p) c.is_mirror (thread C fuel q n (reset c).0 r'))
        (same_store c r)
        (first-IsCopied C fuel n q all (reset c).0 r' s fits keyed listed no_empty few enough
          reliable refl refl refl it)
