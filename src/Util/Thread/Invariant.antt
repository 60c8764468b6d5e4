-- ===== src/Util/Thread/Invariant.antt =====
-- What holds of a worker pool in every state that it reaches.
pub mod Moves
pub mod Seen
pub mod Calls
use model_lib.Prelude.{
  ℕ, zero, suc, ◌+◌, ◌≤◌, ◌<◌, ◌≡◌, ◌≢◌, ◌⊎◌, refl, sym, ap, ◌∙◌, inl, inr, Bool, true, false, List,
  [], ◌∷◌, ◌++◌, arith, length, length-append, append_assoc,
}
use model_lib.Util.Thread.Family.{put_at, sum, sum-two, sum-put_at, sum-le, sum-zero, weight-le_sum}
use model_lib.Util.Thread.State.{
  Shared, Pc, idle, testing, waiting, woken, not_empty, fronted, took, working, storing, adding,
  added, wrote, Caller, free, push_begun, push_locked, push_added, push_unlocked, pop_read,
  pop_locked, pop_not_empty, pop_fronted, pop_taken, pop_failed,
}
use model_lib.Util.Thread.Weights.{
  one_if, holds_jobs, caller_holds_jobs, holds_results, caller_holds_results, sleeps, unwritten,
  reading, signals, failed, count, passes, in_hand, Ready, CallerReady,
}
use model_lib.Util.Thread.Queue
use model_lib.Util.Thread.SelectableQueue
use model_lib.Util.Thread.WorkerPool.{
  System, Move, pop, proc, push, Call, Work, move, call, signal, signal_none, Step, work,
  begin_push, wake, initial, Reach, begin, later,
}

pub record Inv {T : Type 0} (n : ℕ) (m : Shared T) (ws : ℕ → Pc T) (c : Caller T) : Type 0 where
  pub jobs_held : sum holds_jobs ws n + caller_holds_jobs c ≡ one_if m.jobs_locked
  pub results_held : sum holds_results ws n + caller_holds_results c ≡ one_if m.results_locked
  pub order_in : m.pushed ≡ m.taken ++ m.jobs
  pub order_out : m.finished ≡ m.popped ++ m.results
  pub kept : (p : T → Bool) → count p m.taken ≡ sum (in_hand p) ws n + count p m.finished
  pub bytes : length m.results ≡ m.pipe + sum unwritten ws n + reading c
  pub awake : (m.jobs ≡ []) ⊎ (sum sleeps ws n < n + signals c)
  pub sound : failed c ≡ false
  pub jobs_seen : (i : ℕ) → i < n → Ready m.jobs (ws i)
  pub results_seen : CallerReady m.results c

abbrev pub Holds : {T : Type 0} → ℕ → System T → Type 0
Holds n s = Inv n s.shared s.workers s.caller

module _ {T : Type 0} where
  pub count-append : (p : T → Bool) (xs ys : List T) → count p (xs ++ ys) ≡ count p xs + count p ys
  count-append p [] ys = omega arith
  count-append p (x ∷ xs) ys = omega (arith, count-append p xs ys)

  pub move_to :
      (xs ys zs rest : List T) (x : T) → xs ≡ ys ++ zs → zs ≡ x ∷ rest → xs ≡ (ys ++ x ∷ []) ++ rest
  move_to xs ys zs rest x h e = h ∙ ap (λ l. ys ++ l) e ∙ sym (append_assoc ys (x ∷ []) rest)

  pub add_to : (xs ys zs : List T) (x : T) → xs ≡ ys ++ zs → xs ++ x ∷ [] ≡ ys ++ (zs ++ x ∷ [])
  add_to xs ys zs x h = ap (λ l. l ++ x ∷ []) h ∙ append_assoc ys zs (x ∷ [])

  pub sleeps-le : (p : Pc T) → sleeps p ≤ 1
  sleeps-le p = ground arith

  -- While one worker has the lock, no other has.
  pub alone :
      {n : ℕ} {m : Shared T} {ws : ℕ → Pc T} {c : Caller T}
      → Inv n m ws c
      → (i j : ℕ) → i < n
      → j < n
      → i ≢ j
      → holds_jobs (ws i) ≡ 1
      → holds_jobs (ws j) ≡ 0
  alone {n} {m} {ws} inv i j h k ne held =
      ground (arith, inv.jobs_held, held, sum-two holds_jobs ws n i j idle refl h k ne)
