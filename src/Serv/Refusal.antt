-- ===== src/Serv/Refusal.antt =====
-- Which requests are refused with "client_error", and that they change nothing.
use model_lib.Prelude.{
  ℕ, ◌≡◌, refl, Option, none, some, Bool, true, false, List, [], ◌∷◌, ◌++◌, ltb, arith,
  if◌then◌else◌, length, ap,
}
use mathlib.Core.Option.{some-injective}
use model_lib.Prelude.Int.{ℤ, pos}
use model_lib.Prelude.Text.{ByteString, codes, str_eq}
use model_lib.Store.LevelDb.{LevelDb}
use model_lib.Store.Queue.{Queue}
use model_lib.Net.Resp.{Response}
use model_lib.Net.ProcMap.{Proc, get_proc, read_flags, add_flag}
use model_lib.Net.ProcMap.Lookup.{get_proc-set_proc}
use model_lib.Net.Link.{Job, proc, run_command}
use model_lib.Serv.{reg_procs, proc_get, proc_set, proc_del, proc_hset, proc_hget}

-- What the six tests of a name choose: the same tests find the function and the number of strings.
abbrev by_name {ℓ} : {A : Type ℓ} (name : ByteString) (t h1 h2 d s g : A) → A → A
by_name name t h1 h2 d s g other =
    if str_eq (codes "sync140") name
    then t
    else if str_eq (codes "hget") name
    then h1
    else if str_eq (codes "hset") name
    then h2
    else if str_eq (codes "del") name
    then d
    else if str_eq (codes "set") name
    then s
    else if str_eq (codes "get") name
    then g
    else other

-- A property of the two choices holds if it holds of each pair.
by_name-both {ℓ κ μ} :
    {A : Type ℓ} {B : Type κ} (R : A → B → Type μ) (name : ByteString) (t h1 h2 d s g o : A)
    (t' h1' h2' d' s' g' o' : B)
    → R t t'
    → R h1 h1'
    → R h2 h2'
    → R d d'
    → R s s'
    → R g g'
    → R o o'
    → R (by_name name t h1 h2 d s g o) (by_name name t' h1' h2' d' s' g' o')
by_name-both R name t h1 h2 d s g o t' h1' h2' d' s' g' o' p1 p2 p3 p4 p5 p6 p7 =
    both (str_eq (codes "sync140") name) _ _ _ _ p1 (
      both (str_eq (codes "hget") name) _ _ _ _ p2 (
        both (str_eq (codes "hset") name) _ _ _ _ p3 (
          both (str_eq (codes "del") name) _ _ _ _ p4 (
            both (str_eq (codes "set") name) _ _ _ _ p5
              (both (str_eq (codes "get") name) _ _ _ _ p6 p7)))))
  where
    both :
        (b : Bool) (x y : _) (x' y' : _)
        → R x x'
        → R y y'
        → R (if b then x else y) (if b then x' else y')
    both true x y x' y' p q = p
    both false x y x' y' p q = q

-- The least number of strings of a request, its name included; sync140 has none.
abbrev pub min_params : ByteString → Option ℕ
min_params name = by_name name (some 0) (some 3) (some 4) (some 2) (some 3) (some 2) none

abbrev refusal_by : Option ℕ → ByteString → List ByteString → Option Response
refusal_by none name args = some (codes "client_error" ∷ (codes "Unknown Command: " ++ name) ∷ [])
refusal_by (some n) name args =
    if ltb (length (name ∷ args)) n
    then some (codes "client_error" ∷ codes "wrong number of arguments" ∷ [])
    else none

-- The reply to a request of an unknown command, or of too few strings.
abbrev pub refusal : ByteString → List ByteString → Option Response
refusal name args = refusal_by (min_params name) name args

module _ {L : LevelDb} (sync140 : Proc (Queue L)) where
  -- The map has the six commands.
  get_proc-reg_procs :
      (name : ByteString)
      → get_proc (reg_procs sync140) name
        ≡ by_name name
            (some (record { name = codes "sync140"; flags = 10; proc = sync140 }))
            (some (record { name = codes "hget"; flags = 10; proc = proc_hget }))
            (some (record { name = codes "hset"; flags = 10; proc = proc_hset }))
            (some (record { name = codes "del"; flags = 10; proc = proc_del }))
            (some (record { name = codes "set"; flags = 10; proc = proc_set }))
            (some (record { name = codes "get"; flags = 9; proc = proc_get }))
            none
  unfolding reg_procs get_proc read_flags add_flag
  get_proc-reg_procs name =
      rw
        (
          get_proc-set_proc, get_proc-set_proc, get_proc-set_proc, get_proc-set_proc,
          get_proc-set_proc, get_proc-set_proc,
        )
        refl

  -- A function whose request is too short returns what CHECK_NUM_PARAMS does.
  check-short :
      (b : Bool) (q : Queue L) (rest : ℤ × Queue L × Response) (r resp : Response)
      → (if b then some r else none) ≡ some resp
      → (if b then (pos 0, q, r) else rest) ≡ (pos 0, q, resp)
  check-short true q rest r resp h = ap (λ x. (pos 0, q, x)) (some-injective _ _ h)
  check-short false q rest r resp h = cc h

  abbrev as_job : ℤ × Queue L × Response → Job (Queue L)
  as_job r = record { result = r.0; serv = r.1; resp = r.2 }

  -- A request of an unknown command, or of too few strings, is answered with "client_error" and
  -- leaves the server as it was.
  pub proc-refusal :
      (q : Queue L) (name : ByteString) (args : List ByteString) (resp : Response)
      → refusal name args ≡ some resp
      → proc (reg_procs sync140) q (name ∷ args) ≡ record { result = pos 0; serv = q; resp = resp }
  unfolding proc proc_get proc_set proc_del proc_hset proc_hget
  proc-refusal q name args resp = rw (get_proc-reg_procs name) (
      by_name-both
        (λ n cmd.
          refusal_by n name args ≡ some resp
          → run_command cmd q (name ∷ args) ≡ record { result = pos 0; serv = q; resp = resp })
        name (some 0) (some 3) (some 4) (some 2) (some 3) (some 2) none _ _ _ _ _ _ _
        (λ h. absurd (ground (arith, h))) (λ h. ap as_job (check-short _ q _ _ resp h))
        (λ h. ap as_job (check-short _ q _ _ resp h)) (λ h. ap as_job (check-short _ q _ _ resp h))
        (λ h. ap as_job (check-short _ q _ _ resp h)) (λ h. ap as_job (check-short _ q _ _ resp h))
        (λ h. ap as_job (ap (λ x. (pos 0, q, x)) (some-injective _ _ h))))
