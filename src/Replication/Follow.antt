-- ===== src/Replication/Follow.antt =====
-- A new replica from its first connection on: the copy that `BackendSync::Client` of
-- ssdb/src/backend_sync.cpp makes for it, and then the log of what the store writes.
use model_lib.Prelude.{
  ℕ, ◌+◌, ◌-◌, ◌*◌, ◌^◌, ◌<◌, ◌≡◌, ◌≢◌, refl, ap, ◌∙◌, Option, none, some, true, false, List, [],
  length,
}
use model_lib.Prelude.Text.{ByteString}
use model_lib.Store.Binlog
use model_lib.Store.Binlog.{Binlog}
use model_lib.Store.LevelDb.{LevelDb, Op, failed}
use model_lib.Store.Cursor.{Cursors}
use model_lib.Store.Queue.{Queue}
use model_lib.Store.Find.{one, max_seq, find_last}
use model_lib.Store.Find.Sound.{IsSound}
use model_lib.Store.Impl.History.{Request, value, run}
use model_lib.Store.Impl.Log.{writes}
use model_lib.Store.Iterator.Listed.{IsListed}
use model_lib.BackendSync.{Client, reset}
use model_lib.BackendSync.State.{is_copy}
use model_lib.Slave.{Slave}
use model_lib.Replication.{deliver, thread, rounds}
use model_lib.Replication.Copy.{or_else}
use model_lib.Replication.Bootstrap.{bootstrap}
use model_lib.Replication.Converge.{IsCaughtUp, replicate}

or_else-none : (o : Option ByteString) → or_else o none ≡ o
or_else-none none = refl
or_else-none (some v) = refl

module _ {L M : LevelDb} where
  -- The client and the replica after a reset and `n` rounds of the client's thread.
  abbrev pub joined :
      (C : Cursors L) (fuel n : ℕ) (q : Queue L) (c : Client L) (r : Slave M) → Client L × Slave M
  joined C fuel n q c r = thread C fuel q n (reset c).0 (deliver r (reset c).1)

  -- A new replica that has no keys gets the keys and values of a store, and those of the SETs and DELs
  -- that the store carries out after the copy. From a reset, one round for every thousand keys and one
  -- more make the copy. If the store then takes SET and DEL requests of which none fails, as many calls
  -- of `sync` as there were writes, whose messages the replica takes in order, leave it with the keys and
  -- values of the store and the client at the end of the log. The client's iterator is NULL at the reset,
  -- which its constructor leaves to chance, and it is no mirror. The store takes no writes during the
  -- copy, its log is sound and its last record has a key, it has no empty key, its keys are listed and
  -- fewer than 2^64 - 1. LevelDB does not fail to read at the master or to write at the replica, and the
  -- numbers stay below UINT64_MAX.
  pub join-replicate :
      (C : Cursors L) (fuel n : ℕ) (q q' : Queue L) (all : List ByteString) (rs : List Request)
      (c : Client L) (r : Slave M)
      → IsSound q
      → q.last_seq + 1 < max_seq
      → q.last_seq + length rs < max_seq
      → ((log : Binlog) → find_last C q ≡ one log → Binlog.key log ≢ [])
      → IsListed (L.read q.db) all
      → value q [] ≡ none
      → length all < 2 ^ 64 - 1
      → length all < 1000 * n
      → run q rs ≡ some q'
      → ((k : ByteString) → L.get q'.db k ≢ failed)
      → ((d : M.Db) (b : List Op) → (M.write d b).0 ≡ true)
      → c.iter ≡ none
      → c.is_mirror ≡ false
      → ((j : ByteString) → value r.ssdb j ≡ none)
      → IsCaughtUp C fuel q'
          (rounds C fuel q' (writes rs) (joined C fuel n q c r).0 (joined C fuel n q c r).1)
  join-replicate C fuel n q q' all rs c r s fits room keyed listed no_empty few enough ran steady
        reliable it mi new =
      let d = bootstrap C fuel n q all c r s fits keyed listed no_empty few enough reliable it in
      let (c', r') = joined C fuel n q c r in
      replicate C fuel q q' rs c' r' ran room s steady reliable (ap is_copy d.status)
        (d.is_mirror ∙ mi) d.last_seq
        (λ j. d.level j ∙ ap (or_else (value q j)) (new j) ∙ or_else-none (value q j))
