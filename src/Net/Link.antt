-- ===== src/Net/Link.antt =====
-- `Link::proc` of ssdb/src/net/link.cpp: a request is given to the function that its first string
-- names. Sending the reply is I/O; the result is the strings to send.
use model_lib.Prelude.{Option, none, some, List, [], ◌++◌, get_or}
use model_lib.Prelude.Int.{ℤ, pos}
use model_lib.Prelude.Text.{ByteString, codes}
use model_lib.Net.Resp.{Response, push_back}
use model_lib.Net.ProcMap.{Command, get_proc}

-- The result of the job, the server state and the reply.
pub record Job (S : Type 0) : Type 0 where
  pub result : ℤ
  pub serv : S
  pub resp : Response

module _ {S : Type 0} where
  abbrev pub run_command : Option (Command S) → S → List ByteString → Job S
  run_command none serv req = record {
    result = pos 0;
    serv = serv;
    resp =
        push_back (push_back [] (codes "client_error"))
          (codes "Unknown Command: " ++ get_or req 0 []);
  }
  run_command (some cmd) serv req =
      let r = cmd.proc serv req [] in record { result = r.0; serv = r.1; resp = r.2 }

  -- `req->at(0)`: the caller has seen that the request is not empty.
  unfoldable pub proc : List (Command S) → S → List ByteString → Job S
  unfolding push_back
  proc proc_map serv req = run_command (get_proc proc_map (get_or req 0 [])) serv req
