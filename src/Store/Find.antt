-- ===== src/Store/Find.antt =====
-- How `BinlogQueue` of ssdb/src/ssdb/binlog.cpp finds records of its log: `find_last`, `get`,
-- `find_next`, and the constructor, which recovers the sequence number.
pub mod Sound
pub mod Recovery
pub mod Next
use model_lib.Prelude.{ℕ, ◌-◌, ◌^◌, Option, none, some, [], ◌==◌, if◌then◌else◌}
use model_lib.Prelude.Text.{ByteString}
use model_lib.Store.Keys.{encode_seq_key, decode_seq_key}
use model_lib.Store.Binlog.{Binlog, load, seq}
use model_lib.Store.LevelDb.{LevelDb, Got, found, not_found, failed}
use model_lib.Store.Cursor.{Cursors}
use model_lib.Store.Queue.{Queue}

-- 1 with the record; 0; -1 for a record that is too short.
pub data Find : Type 0 where
  one : Binlog → Find
  absent : Find
  invalid : Find

-- `log->load(val)` on the value of a cursor. A valid cursor has one.
unfoldable pub load_value : Option ByteString → Find
load_value none = absent
load_value (some val) = elim (load val) [ none ↦ invalid | some log ↦ one log ]

unfoldable pub load_got : Got → Option Binlog
load_got (found val) = load val
load_got not_found = none
load_got failed = none

-- UINT64_MAX.
abbrev pub max_seq : ℕ
max_seq = 2 ^ 64 - 1

-- The record under a cursor, if that is valid and stands on a key of the log.
unfoldable pub load_at : (L : LevelDb) → L.Db → Option ByteString → Find
unfolding load_value
load_at L db none = absent
load_at L db (some k) = if decode_seq_key k == 0 then absent else load_value (L.read db k)

-- `if(this->get(next_seq, log) == 1) return 1`.
abbrev pub got_or : Option Binlog → Find → Find
got_or none rest = rest
got_or (some log) rest = one log

-- `this->last_seq` of a constructor that found that.
abbrev pub recovered_seq : Find → ℕ
recovered_seq (one log) = seq log
recovered_seq absent = 0
recovered_seq invalid = 0

module _ {L : LevelDb} where
  -- `BinlogQueue::get`; `none` is 0.
  unfoldable pub get_log : Queue L → ℕ → Option Binlog
  unfolding load_got
  get_log q seq = load_got (L.get q.db (encode_seq_key seq))

  module _ (C : Cursors L) where
    -- The cursor steps back from the place behind the log, which is the end if nothing follows.
    unfoldable pub step_back : L.Db → Option ByteString → Option ByteString
    step_back db none = C.seek_to_last db
    step_back db (some k) = C.prev db k

    unfoldable pub find_last : Queue L → Find
    unfolding step_back load_at
    find_last q = load_at L q.db (step_back q.db (C.seek q.db (encode_seq_key max_seq)))

    -- Two reads: `get` finds `q`, and the iterator that is made then finds `q'`.
    unfoldable pub find_next : Queue L → Queue L → ℕ → Find
    find_next q q' next_seq =
        got_or (get_log q next_seq) (load_at L q'.db (C.seek q'.db (encode_seq_key next_seq)))

    -- The constructor.
    unfoldable pub open_queue : L.Db → ℕ → Queue L
    unfolding find_last
    open_queue db capacity =
        let q : Queue L = record {
          db = db;
          capacity = capacity;
          last_seq = 0;
          tran_seq = 0;
          batch = [];
        } in
        record q { last_seq = recovered_seq (find_last q) }
