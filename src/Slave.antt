-- ===== src/Slave.antt =====
-- `Slave` of ssdb/src/slave.h and ssdb/src/slave.cpp: a replica takes the master's messages, carries
-- them out on its own store, and keeps how far it has come in the meta database. Its thread and its
-- connection are I/O.
pub mod Status
use model_lib.Prelude.{
  ℕ, ◌+◌, ◌%◌, ◌^◌, Option, none, some, Bool, true, false, List, [], ◌∷◌, ◌++◌, ◌==◌, ltb, not,
  if◌then◌else◌, get_or, length, take, drop,
}
use mathlib.Core.Option
use model_lib.Prelude.Int.{ℤ, pos, negsuc}
use model_lib.Prelude.Text.{ByteString, codes, str_eq}
use model_lib.Util.Endian.{le_value}
use model_lib.Util.Number.{str_int, str_uint64, str_to_uint64}
use model_lib.Store.Const.BinlogType
use model_lib.Store.Const.BinlogCommand
use model_lib.Store.Keys.{decode_kv_key}
use model_lib.Store.Binlog
use model_lib.Store.Binlog.{Binlog, load, seq}
use model_lib.Store.LevelDb.{LevelDb}
use model_lib.Store.Queue.{Queue}
use model_lib.Store.Impl.{set, del, hget, hset, raw_get, raw_del}
use model_lib.Net.Resp.{is_error, is_zero}

-- `Slave::INIT` and so on.
abbrev pub status_copy : ℕ
status_copy = 2

abbrev pub status_sync : ℕ
status_sync = 4

abbrev pub status_out_of_sync : ℕ
status_out_of_sync = 8

pub record Slave (L : LevelDb) : Type 0 where
  pub status : ℕ
  pub copy_count : ℕ
  pub sync_count : ℕ
  pub last_seq : ℕ
  pub last_key : ByteString
  pub id : ByteString
  pub ssdb : Queue L
  pub meta : Queue L

-- "%s|%d" in 128 bytes, the NUL included.
unfoldable pub make_id : ByteString → ℤ → ByteString
make_id master_ip master_port = take 127 (master_ip ++ b'|' ∷ str_int master_port)

abbrev pub keep_empty : ByteString → ByteString → ByteString
keep_empty [] old = old
keep_empty (c ∷ key) old = c ∷ key

abbrev pub read_seq : ByteString → ℕ → ℕ
read_seq [] old = old
read_seq (c ∷ text) old = (str_to_uint64 0 (c ∷ text)).0

module _ {L : LevelDb} where
  -- The constructor. `status` is not initialised in the source.
  unfoldable pub new_slave : Queue L → Queue L → ByteString → ℤ → ℕ → Slave L
  new_slave ssdb meta master_ip master_port garbage = record {
    status = garbage;
    copy_count = 0;
    sync_count = 0;
    last_seq = 0;
    last_key = [];
    id = make_id master_ip master_port;
    ssdb = ssdb;
    meta = meta;
  }

  unfoldable pub status_key : Slave L → ByteString
  status_key s = codes "slave.status." ++ s.id

  -- Both writes are made, whatever they return.
  unfoldable pub save_status : Slave L → Slave L
  unfolding status_key
  save_status s =
      let meta1 = (hset s.meta (status_key s) (codes "last_key") s.last_key BinlogType.sync).1 in
      let meta2 =
        (hset meta1 (status_key s) (codes "last_seq") (str_uint64 s.last_seq) BinlogType.sync).1 in
      record s { meta = meta2 }

  -- An empty value leaves what the slave has.
  unfoldable pub load_status : Slave L → Slave L
  unfolding status_key
  load_status s =
      let key = (hget s.meta (status_key s) (codes "last_key") []).1 in
      let text = (hget s.meta (status_key s) (codes "last_seq") []).1 in
      record s { last_key = keep_empty key s.last_key; last_seq = read_seq text s.last_seq }

  -- `none` is `exit(1)`.
  abbrev pub drop_old : Slave L → ByteString → Option (Slave L)
  drop_old s old_key =
      let (ret, meta) = raw_del s.meta old_key in
      if is_error ret then none else some (record s { meta = meta })

  unfoldable pub migrate_old_status : Slave L → Option (Slave L)
  unfolding save_status
  migrate_old_status s =
      let old_key = codes "new.slave.status|" ++ s.id in
      let (old_found, val) = raw_get s.meta old_key [] in
      if is_zero old_found
      then some s
      else if ltb (length val) 8
      then some s
      else drop_old
          (save_status (record s { last_seq = le_value (take 8 val); last_key = drop 8 val }))
          old_key

  -- `start`, without the thread that it starts then; it does nothing for a slave with no master.
  unfoldable pub start : ByteString → ℤ → Slave L → Option (Slave L)
  unfolding migrate_old_status load_status
  start [] master_port s = some s
  start (c ∷ ip) (negsuc n) s = some s
  start (c ∷ ip) (pos n) s =
      if n == 0 then some s else Option.map load_status (migrate_old_status s)

  -- The end of `proc_sync`: the position of the record is saved.
  abbrev pub advance : Slave L → Binlog → Slave L
  advance s log = save_status (record s {
    last_seq = seq log;
    last_key = if Binlog.type log == BinlogType.copy then Binlog.key log else s.last_key;
  })

  -- A write on the store; -1 leaves the position as it was.
  abbrev pub after_write : Slave L → Binlog → ℤ × Queue L → ℤ × Slave L
  after_write s log (ret, q) =
      if is_error ret
      then (negsuc 0, record s { ssdb = q })
      else (pos 0, advance (record s { ssdb = q }) log)

  abbrev pub sync_set : Slave L → Binlog → List ByteString → Option ByteString → ℤ × Slave L
  sync_set s log req none = (pos 0, advance s log)
  sync_set s log req (some key) =
      if not (length req == 2)
      then (pos 0, advance s log)
      else after_write s log (set s.ssdb key (get_or req 1 []))

  abbrev pub sync_del : Slave L → Binlog → Option ByteString → ℤ × Slave L
  sync_del s log none = (pos 0, advance s log)
  sync_del s log (some key) = after_write s log (del s.ssdb key)

  -- The length of the request is looked at before the key is decoded; both leave the switch.
  unfoldable pub proc_sync : Slave L → Binlog → List ByteString → ℤ × Slave L
  unfolding save_status
  proc_sync s log req =
      if Binlog.cmd log == BinlogCommand.kset
      then sync_set s log req (decode_kv_key (Binlog.key log))
      else if Binlog.cmd log == BinlogCommand.kdel
      then sync_del s log (decode_kv_key (Binlog.key log))
      else (pos 0, advance s log)

  unfoldable pub proc_copy : Slave L → Binlog → List ByteString → ℤ × Slave L
  unfolding save_status proc_sync
  proc_copy s log req =
      if Binlog.cmd log == BinlogCommand.begin
      then (pos 0, s)
      else if Binlog.cmd log == BinlogCommand.end
      then (pos 0, save_status (record s { status = status_sync; last_key = [] }))
      else proc_sync (record s { copy_count = (s.copy_count + 1) % 2 ^ 64 }) log req

  -- What `proc_copy` and `proc_sync` return is dropped.
  abbrev pub dispatch : Slave L → Binlog → List ByteString → Slave L
  dispatch s log req =
      if Binlog.type log == BinlogType.ctrl
      then (if str_eq (Binlog.key log) (codes "OUT_OF_SYNC")
          then record s { status = status_out_of_sync }
          else s)
      else if Binlog.type log == BinlogType.copy
      then (proc_copy (record s { status = status_copy }) log req).1
      else if Binlog.type log == BinlogType.sync
      then (proc_sync (record s { status = status_sync; sync_count = (s.sync_count + 1) % 2 ^ 64 })
          log req).1
      else if Binlog.type log == BinlogType.mirror
      then (proc_sync (record s { status = status_sync; sync_count = (s.sync_count + 1) % 2 ^ 64 })
          log req).1
      else s

  -- `Slave::proc`, which returns 0 on every path. The link gives no empty request.
  unfoldable pub proc : Slave L → List ByteString → Slave L
  unfolding proc_copy proc_sync
  proc s req = elim (load (get_or req 0 [])) [ none ↦ s | some log ↦ dispatch s log req ]
