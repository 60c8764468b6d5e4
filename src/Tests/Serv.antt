-- ===== src/Tests/Serv.antt =====
-- Tests of the commands of ssdb/src/proc_kv.cpp and of the links and replies of ssdb/src/net.
use model_lib.Prelude.{ℕ, ◌^◌, ◌≤◌, ◌≡◌, ◌↔◌, ◌⊎◌, refl, none, some, List, [], ◌∷◌}
use model_lib.Prelude.Int.{pos, negsuc}
use model_lib.Prelude.Text.{codes, str_eq}
use model_lib.Util.Bytes.{compare_bytes, memcmp}
use model_lib.Store.LevelDb.{in_memory, failed}
use model_lib.Store.Keys.{encode_kv_key}
use model_lib.Store.Queue
use model_lib.Store.Queue.{Queue, begin, commit, rollback, add_log}
use model_lib.Store.Impl.{set}
use model_lib.Store.Impl.History.{Request, set_key, value, apply_all}
use model_lib.Net.Resp.{add_int64, add_uint64}
use model_lib.Net.Resp.Width.{add-InBuffer}
use model_lib.Net.ProcMap.{Proc, bytes_equal, read_flags, add_flag, get_proc, assign, set_proc}
use model_lib.Net.Link.{proc}
use model_lib.Serv.{reg_procs, proc_set}
use model_lib.Serv.Commands.{play, play-get, get_reply}
use model_lib.Serv.Refusal.{proc-refusal}

add-InBuffer_example :
    ((add_int64 [] (pos 7) ≡ none) ↔ (10 ^ 19 ≤ 7))
    × ((add_int64 [] (negsuc 7) ≡ none) ↔ (10 ^ 18 ≤ 8))
    × ((add_uint64 [] 7 ≡ none) ↔ (10 ^ 19 ≤ 7))
add-InBuffer_example = add-InBuffer [] 7

abbrev start : Queue in_memory
start = record { db = λ k. none; capacity = 20000000; last_seq = 0; tran_seq = 0; batch = [] }

abbrev no_sync : Proc (Queue in_memory)
no_sync serv req resp = (pos 0, serv, resp)

abbrev count_calls : Proc ℕ
count_calls serv req resp = (pos 0, serv, resp)

abbrev session : List Request
session = set_key (codes "a") (codes "1") ∷ []

abbrev after_session : Queue in_memory
after_session = (set start (codes "a") (codes "1")).1

session_plays : play no_sync start session ≡ some after_session
unfolding proc proc_set set begin commit rollback add_log Queue.put reg_procs set_proc get_proc
    assign read_flags add_flag bytes_equal compare_bytes memcmp str_eq
session_plays = refl

play-get_example :
    ((proc (reg_procs no_sync) after_session (codes "get" ∷ codes "a" ∷ [])).resp
      ≡ get_reply (apply_all (value start) session (codes "a")))
    ⊎ ((in_memory.get after_session.db (encode_kv_key (codes "a")) ≡ failed)
        × ((proc (reg_procs no_sync) after_session (codes "get" ∷ codes "a" ∷ [])).resp
            ≡ codes "error" ∷ []))
play-get_example = play-get no_sync start after_session session (codes "a") session_plays

proc-refusal_example : proc (reg_procs no_sync) start (codes "set" ∷ codes "a" ∷ []) ≡ record {
  result = pos 0;
  serv = start;
  resp = codes "client_error" ∷ codes "wrong number of arguments" ∷ [];
}
unfolding str_eq
proc-refusal_example = proc-refusal no_sync start (codes "set") (codes "a" ∷ []) _ refl
