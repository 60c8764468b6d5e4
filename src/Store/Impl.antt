-- ===== src/Store/Impl.antt =====
-- `SSDBImpl` of ssdb/src/ssdb/ssdb_impl.cpp: keys, hashes and raw access. An `int` result is a ℤ,
-- -1 for an error; the state is the queue of the log, with the database in it.
pub mod Kv
pub mod History
pub mod Log
pub mod Hash
pub mod Frame
use model_lib.Prelude.{
  ℕ, ◌+◌, ◌^◌, Bool, true, false, not, ◌||◌, ◌&&◌, Option, [], ◌∷◌, ltb, ◌==◌, if◌then◌else◌,
  length,
}
use model_lib.Prelude.Int.{ℤ, pos, negsuc, ◌+ℤ◌, to_word, signed}
use model_lib.Prelude.Text.{ByteString, str_eq}
use model_lib.Util.Endian.{le_bytes, le_value}
use model_lib.Store.Const.{key_len_max}
use model_lib.Store.Const.BinlogType
use model_lib.Store.Const.BinlogCommand
use model_lib.Store.Keys.{encode_kv_key, encode_hash_key, encode_hsize_key}
use model_lib.Store.LevelDb.{LevelDb, Op, Got, found, not_found, failed}
use model_lib.Store.Queue
use model_lib.Store.Queue.{Queue, begin, commit, rollback, add_log}

abbrev pub error : ℤ
error = negsuc 0

abbrev pub is_empty : ByteString → Bool
is_empty [] = true
is_empty (c ∷ s) = false

-- The result of `Get` as the methods give it: -1, 0 or 1, and what `*val` holds after it.
abbrev pub get_result : Got → ByteString → ℤ × ByteString
get_result (found v) val = (pos 1, v)
get_result not_found val = (pos 0, val)
get_result failed val = (error, val)

-- `s.ok()` of the commit that ends a transaction.
abbrev pub committed : Bool → ℤ → ℤ
committed ok ret = if ok then ret else error

-- A size that is not 8 bytes long, or negative, counts as 0.
unfoldable pub hsize_value : Got → ℤ
hsize_value not_found = pos 0
hsize_value failed = error
hsize_value (found val) =
    if not (length val == 8)
    then pos 0
    else elim (signed (2 ^ 64) (le_value val)) [ pos n ↦ pos n | negsuc n ↦ pos 0 ]

module _ {L : LevelDb} where
  -- The transaction ends with the call, whatever it returns.
  unfoldable pub set : Queue L → ByteString → ByteString → ℤ × Queue L
  set q key val =
      let buf = encode_kv_key key in
      let q1 = Queue.put (begin q) buf val in
      let (ok, q2) = commit (add_log q1 BinlogType.sync BinlogCommand.kset buf) in
      if is_empty key then (pos 0, q) else (committed ok (pos 1), rollback q2)

  unfoldable pub del : Queue L → ByteString → ℤ × Queue L
  del q key =
      let buf = encode_kv_key key in
      let q1 = Queue.delete (begin q) buf in
      let (ok, q2) = commit (add_log q1 BinlogType.sync BinlogCommand.kdel buf) in
      (committed ok (pos 1), rollback q2)

  -- `val` is the string that the caller passes in.
  unfoldable pub get : Queue L → ByteString → ByteString → ℤ × ByteString
  get q key val = get_result (L.get q.db (encode_kv_key key)) val

  unfoldable pub hget : Queue L → ByteString → ByteString → ByteString → ℤ × ByteString
  hget q name key val = get_result (L.get q.db (encode_hash_key name key)) val

  unfoldable pub hsize : Queue L → ByteString → ℤ
  unfolding hsize_value
  hsize q name = hsize_value (L.get q.db (encode_hsize_key name))

  -- The new size: 0 deletes the record, and the sum is one of `int64_t`.
  abbrev pub store_size : Queue L → ByteString → ℕ → Queue L
  store_size q size_key size =
      if size == 0 then Queue.delete q size_key else Queue.put q size_key (le_bytes 8 size)

  -- It always returns 0.
  unfoldable pub incr_hsize : Queue L → ByteString → ℤ → Queue L
  incr_hsize q name incr =
      store_size q (encode_hsize_key name) (to_word (2 ^ 64) (hsize q name +ℤ incr))

  -- The number of newly added items, or -1.
  unfoldable pub hset_one : Queue L → ByteString → ByteString → ByteString → ℕ → ℤ × Queue L
  hset_one q name key val log_type =
      let hkey = encode_hash_key name key in
      let stored = add_log (Queue.put q hkey val) log_type BinlogCommand.hset hkey in
      let (ret, dbval) = hget q name key [] in
      if is_empty name || is_empty key
      then (error, q)
      else if ltb key_len_max (length name)
      then (error, q)
      else if ltb key_len_max (length key)
      then (error, q)
      else (elim ret [
        | pos n ↦
            if n == 0
            then (pos 1, stored)
            else (pos 0, if not (str_eq dbval val) then stored else q)
        | negsuc n ↦ (pos 0, if not (str_eq dbval val) then stored else q)
      ])

  abbrev pub count_new : Queue L → ByteString → ℤ → Queue L
  count_new q name (negsuc n) = q
  count_new q name (pos n) = if n == 0 then q else incr_hsize q name (pos n)

  -- A write is committed unless `hset_one` failed.
  abbrev pub finish_hset : Queue L → ByteString → ℤ → ℤ × Queue L
  finish_hset q name (negsuc n) = (negsuc n, rollback q)
  finish_hset q name (pos n) =
      let (ok, q') = commit (count_new q name (pos n)) in (committed ok (pos n), rollback q')

  unfoldable pub hset : Queue L → ByteString → ByteString → ByteString → ℕ → ℤ × Queue L
  hset q name key val log_type =
      let (ret, q1) = hset_one (begin q) name key val log_type in finish_hset q1 name ret

  -- The source calls it nowhere.
  unfoldable pub hdel_one : Queue L → ByteString → ByteString → ℕ → ℤ × Queue L
  hdel_one q name key log_type =
      let hkey = encode_hash_key name key in
      let (ret, dbval) = hget q name key [] in
      let dropped = add_log (Queue.delete q hkey) log_type BinlogCommand.hdel hkey in
      if ltb key_len_max (length name)
      then (error, q)
      else if ltb key_len_max (length key)
      then (error, q)
      else (elim ret [
        | pos n ↦ if n == 0 then (pos 0, q) else (pos 1, dropped)
        | negsuc n ↦ (pos 1, dropped)
      ])

  -- Raw access goes past the log.
  unfoldable pub raw_set : Queue L → ByteString → ByteString → ℤ × Queue L
  raw_set q key val =
      let (ok, db) = L.write q.db (Op.put key val ∷ []) in
      (committed ok (pos 1), record q { db = db })

  unfoldable pub raw_del : Queue L → ByteString → ℤ × Queue L
  raw_del q key =
      let (ok, db) = L.write q.db (Op.delete key ∷ []) in
      (committed ok (pos 1), record q { db = db })

  unfoldable pub raw_get : Queue L → ByteString → ByteString → ℤ × ByteString
  raw_get q key val = get_result (L.get q.db key) val
