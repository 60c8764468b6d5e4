-- ===== src/Serv/Commands.antt =====
-- What a client sees of the commands.
use model_lib.Prelude.{
  ◌≡◌, refl, Option, none, some, Bool, true, false, List, [], ◌∷◌, if◌then◌else◌, ◌∙◌, sym, ap, ◌⊎◌,
  inl, inr,
}
use model_lib.Prelude.Int.{pos}
use model_lib.Prelude.Text.{ByteString, codes, str_eq}
use model_lib.Store.LevelDb.{LevelDb, Got, found, not_found, failed, Agrees}
use model_lib.Store.Keys.{encode_kv_key}
use model_lib.Store.Queue.{Queue}
use model_lib.Net.Resp.{Response, reply_get}
use model_lib.Net.ProcMap.{Proc, get_proc, set_proc, read_flags, assign, add_flag, bytes_equal}
use model_lib.Util.Bytes.{compare_bytes, memcmp}
use model_lib.Net.Link.{proc}
use model_lib.Store.Impl.History.{
  Request, set_key, del_key, step, run, unless_failed, value, apply_all, run-value,
}
use model_lib.Store.Impl.{set, del, get, get_result, committed}
use model_lib.Serv.{reply_written, reg_procs, proc_get, proc_set, proc_del}

-- The strings of a request.
abbrev pub wire : Request → List ByteString
wire (set_key k v) = codes "set" ∷ k ∷ v ∷ []
wire (del_key k) = codes "del" ∷ k ∷ []

abbrev pub accepted : Response → Bool
accepted [] = false
accepted (status ∷ _) = str_eq status (codes "ok")

-- The reply to a GET, by what a dictionary holds.
abbrev pub get_reply : Option ByteString → Response
get_reply none = codes "not_found" ∷ []
get_reply (some v) = codes "ok" ∷ v ∷ []

module _ {L : LevelDb} (sync140 : Proc (Queue L)) where
  find_set :
      get_proc (reg_procs sync140) (codes "set")
      ≡ some (record { name = codes "set"; flags = 10; proc = proc_set })
  unfolding reg_procs set_proc get_proc assign read_flags add_flag bytes_equal compare_bytes memcmp
  find_set = refl

  find_del :
      get_proc (reg_procs sync140) (codes "del")
      ≡ some (record { name = codes "del"; flags = 10; proc = proc_del })
  unfolding reg_procs set_proc get_proc assign read_flags add_flag bytes_equal compare_bytes memcmp
  find_del = refl

  find_get :
      get_proc (reg_procs sync140) (codes "get")
      ≡ some (record { name = codes "get"; flags = 9; proc = proc_get })
  unfolding reg_procs set_proc get_proc assign read_flags add_flag bytes_equal compare_bytes memcmp
  find_get = refl

  -- The requests through the link, in order; `none` if one is not answered with "ok".
  abbrev pub play : Queue L → List Request → Option (Queue L)
  play q [] = some q
  play q (r ∷ rs) =
      let job = proc (reg_procs sync140) q (wire r) in
      let rest = play job.serv rs in if accepted job.resp then rest else none

  proc-wire :
      (q : Queue L) (r : Request)
      → proc (reg_procs sync140) q (wire r)
        ≡ record { result = pos 0; serv = (step q r).1; resp = reply_written [] (step q r).0 }
  unfolding proc step
  proc-wire q (set_key k v) = rw find_set (unfold proc_set in refl)
  proc-wire q (del_key k) = rw find_del (unfold proc_del in refl)

  accepted-committed :
      (ok : Bool) (rest : Option (Queue L))
      → (if accepted (reply_written [] (committed ok (pos 1))) then rest else none)
        ≡ unless_failed (committed ok (pos 1)) rest
  unfolding str_eq
  accepted-committed true rest = refl
  accepted-committed false rest = refl

  accepted-step :
      (q : Queue L) (r : Request) (rest : Option (Queue L))
      → (if accepted (reply_written [] (step q r).0) then rest else none)
        ≡ unless_failed (step q r).0 rest
  unfolding step set del str_eq
  accepted-step q (set_key [] v) rest = refl
  accepted-step q (set_key (c ∷ k) v) rest = accepted-committed _ rest
  accepted-step q (del_key k) rest = accepted-committed _ rest

  -- Through the link and on the store, the same requests go through.
  play-run : (q : Queue L) (rs : List Request) → play q rs ≡ run q rs
  play-run q [] = refl
  play-run q (r ∷ rs) =
      rw (proc-wire q r) (accepted-step q r (play (step q r).1 rs))
      ∙ ap (λ o. unless_failed (step q r).0 o) (play-run (step q r).1 rs)

  proc-get :
      (q : Queue L) (k : ByteString)
      → ((proc (reg_procs sync140) q (codes "get" ∷ k ∷ [])).resp ≡ get_reply (value q k))
        ⊎ ((L.get q.db (encode_kv_key k) ≡ failed)
            × ((proc (reg_procs sync140) q (codes "get" ∷ k ∷ [])).resp ≡ codes "error" ∷ []))
  unfolding proc proc_get get reply_get
  proc-get q k =
      rw find_get (reply-get (L.get q.db (encode_kv_key k)) _ (L.get_agrees q.db (encode_kv_key k)))
    where
      reply-get :
          (g : Got) (o : Option ByteString)
          → Agrees g o
          → (reply_get [] (get_result g []).0 (some (get_result g []).1) none ≡ get_reply o)
            ⊎ ((g ≡ failed)
                × (reply_get [] (get_result g []).0 (some (get_result g []).1) none
                    ≡ codes "error" ∷ []))
      reply-get (found v) o h = inl (ap get_reply (sym h))
      reply-get not_found o h = inl (ap get_reply (sym h))
      reply-get failed o h = inr (refl, refl)

  -- After SET and DEL requests that were all answered with "ok", a GET is answered with what they
  -- leave in a dictionary: "ok" and the value, or "not_found"; or LevelDB fails to read the key, and the
  -- answer is "error".
  pub play-get :
      (q q' : Queue L) (rs : List Request) (k : ByteString)
      → play q rs ≡ some q'
      → ((proc (reg_procs sync140) q' (codes "get" ∷ k ∷ [])).resp
          ≡ get_reply (apply_all (value q) rs k))
        ⊎ ((L.get q'.db (encode_kv_key k) ≡ failed)
            × ((proc (reg_procs sync140) q' (codes "get" ∷ k ∷ [])).resp ≡ codes "error" ∷ []))
  play-get q q' rs k h = rw (sym (run-value q q' rs (sym (play-run q rs) ∙ h) k)) (proc-get q' k)
