-- ===== src/Serv.antt =====
-- The commands of the server: ssdb/src/proc_kv.cpp, and `reg_procs` and CHECK_NUM_PARAMS of
-- ssdb/src/serv.cpp and ssdb/src/serv.h. The server state is the queue of the log, with the database in
-- it. `proc_sync140`, which hands the link to a thread, is an argument of `reg_procs`.
pub mod Commands
pub mod Refusal
use model_lib.Prelude.{
  ℕ, Option, none, some, List, [], ◌∷◌, ◌++◌, ltb, if◌then◌else◌, get_or, length,
}
use model_lib.Prelude.Int.{ℤ, pos}
use model_lib.Prelude.Text.{ByteString, codes}
use model_lib.Store.Const.BinlogType
use model_lib.Store.LevelDb.{LevelDb}
use model_lib.Store.Queue.{Queue}
use model_lib.Store.Impl.{set, del, get, hset, hget}
use model_lib.Net.Resp.{Response, push_back, is_error, reply_bool, reply_get}
use model_lib.Net.ProcMap.{Proc, Command, set_proc}

-- CHECK_NUM_PARAMS: the rest of the function runs only on `n` strings or more.
abbrev pub check_num_params {ℓ} :
    {S : Type ℓ} → ℕ → S → List ByteString → Response → ℤ × S × Response → ℤ × S × Response
check_num_params n serv req resp rest =
    if ltb (length req) n
    then (
      pos 0,
      serv,
      (resp ++ codes "client_error" ∷ []) ++ codes "wrong number of arguments" ∷ [],
    )
    else rest

-- The reply of `proc_set` and `proc_del`.
abbrev pub reply_written : Response → ℤ → Response
reply_written resp ret =
    if is_error ret then resp ++ codes "error" ∷ [] else (resp ++ codes "ok" ∷ []) ++ codes "1" ∷ []

module _ {L : LevelDb} where
  unfoldable pub proc_get : Proc (Queue L)
  proc_get serv req resp =
      let (ret, val) = get serv (get_or req 1 []) [] in
      check_num_params 2 serv req resp (pos 0, serv, reply_get resp ret (some val) none)

  unfoldable pub proc_set : Proc (Queue L)
  proc_set serv req resp =
      let (ret, serv') = set serv (get_or req 1 []) (get_or req 2 []) in
      check_num_params 3 serv req resp (pos 0, serv', reply_written resp ret)

  unfoldable pub proc_del : Proc (Queue L)
  proc_del serv req resp =
      let (ret, serv') = del serv (get_or req 1 []) in
      check_num_params 2 serv req resp (pos 0, serv', reply_written resp ret)

  unfoldable pub proc_hset : Proc (Queue L)
  proc_hset serv req resp =
      let (ret, serv') =
        hset serv (get_or req 1 []) (get_or req 2 []) (get_or req 3 []) BinlogType.sync in
      check_num_params 4 serv req resp (pos 0, serv', reply_bool resp ret none)

  unfoldable pub proc_hget : Proc (Queue L)
  proc_hget serv req resp =
      let (ret, val) = hget serv (get_or req 1 []) (get_or req 2 []) [] in
      check_num_params 3 serv req resp (pos 0, serv, reply_get resp ret (some val) none)

  unfoldable pub reg_procs : Proc (Queue L) → List (Command (Queue L))
  unfolding proc_get proc_set proc_del proc_hset proc_hget
  reg_procs proc_sync140 =
      let m1 = set_proc [] (codes "get") (codes "rt") proc_get in
      let m2 = set_proc m1 (codes "set") (codes "wt") proc_set in
      let m3 = set_proc m2 (codes "del") (codes "wt") proc_del in
      let m4 = set_proc m3 (codes "hset") (codes "wt") proc_hset in
      let m5 = set_proc m4 (codes "hget") (codes "wt") proc_hget in
      set_proc m5 (codes "sync140") (codes "wt") proc_sync140
