-- ===== src/Store/Queue.antt =====
-- `BinlogQueue` and `Transaction` of ssdb/src/ssdb/binlog.h and ssdb/src/ssdb/binlog.cpp. A
-- transaction holds the mutex, which makes it one step: the state is passed along.
use model_lib.Prelude.{ℕ, ◌+◌, ◌%◌, ◌^◌, Bool, List, [], ◌∷◌, ◌++◌, if◌then◌else◌}
use model_lib.Prelude.Text.{ByteString}
use model_lib.Store.Keys.{encode_seq_key}
use model_lib.Store.Binlog.{make, repr}
use model_lib.Store.LevelDb.{LevelDb, Op}

module _ (L : LevelDb) where
  open L use {Db, write}

  -- The database is the one that the store reads: both hold the same pointer.
  pub record Queue : Type 0 where
    pub db : Db
    pub capacity : ℕ
    pub last_seq : ℕ
    pub tran_seq : ℕ
    pub batch : List Op

module _ {L : LevelDb} where
  open L use {Db, write}

  unfoldable pub put : Queue L → ByteString → ByteString → Queue L
  put q key value = record q { batch = q.batch ++ Op.put key value ∷ [] }

  unfoldable pub delete : Queue L → ByteString → Queue L
  delete q key = record q { batch = q.batch ++ Op.delete key ∷ [] }

  -- `Transaction(logs)`.
  unfoldable pub begin : Queue L → Queue L
  begin q = record q { tran_seq = q.last_seq; batch = [] }

  -- The status of the write, and the queue.
  unfoldable pub commit : Queue L → Bool × Queue L
  commit q =
      let (ok, db) = write q.db q.batch in
      (
        ok,
        if ok
            then record q { db = db; last_seq = q.tran_seq; tran_seq = 0 }
            else record q { db = db },
      )

  -- `~Transaction()`.
  unfoldable pub rollback : Queue L → Queue L
  rollback q = record q { tran_seq = 0 }

  -- `tran_seq` is a uint64_t.
  unfoldable pub add_log : Queue L → ℕ → ℕ → ByteString → Queue L
  add_log q type cmd key =
      let seq = (q.tran_seq + 1) % 2 ^ 64 in
      record q {
        tran_seq = seq;
        batch = q.batch ++ Op.put (encode_seq_key seq) (repr (make seq type cmd key)) ∷ [];
      }
