-- ===== src/Util/Thread/Weights.antt =====
-- What the threads of ssdb/src/util/thread.h hold and still have to do, counted.
use model_lib.Prelude.{ℕ, ◌+◌, ◌≡◌, Bool, true, false, List, [], ◌∷◌}
use model_lib.Util.Thread.State.{
  Pc, idle, testing, waiting, woken, not_empty, fronted, took, working, storing, adding, added,
  wrote, Caller, free, push_begun, push_locked, push_added, push_unlocked, pop_read, pop_locked,
  pop_not_empty, pop_fronted, pop_taken, pop_failed,
}

abbrev pub one_if : Bool → ℕ
one_if true = 1
one_if false = 0

module _ {T : Type 0} where
  abbrev pub holds_jobs : Pc T → ℕ
  holds_jobs testing = 1
  holds_jobs not_empty = 1
  holds_jobs (fronted x) = 1
  holds_jobs (took x) = 1
  holds_jobs _ = 0

  abbrev pub caller_holds_jobs : Caller T → ℕ
  caller_holds_jobs (push_locked x) = 1
  caller_holds_jobs push_added = 1
  caller_holds_jobs _ = 0

  abbrev pub holds_results : Pc T → ℕ
  holds_results (adding x) = 1
  holds_results added = 1
  holds_results wrote = 1
  holds_results _ = 0

  abbrev pub caller_holds_results : Caller T → ℕ
  caller_holds_results pop_locked = 1
  caller_holds_results pop_not_empty = 1
  caller_holds_results (pop_fronted x) = 1
  caller_holds_results (pop_taken x) = 1
  caller_holds_results _ = 0

  -- 1 for a worker in `pthread_cond_wait`.
  abbrev pub sleeps : Pc T → ℕ
  sleeps waiting = 1
  sleeps _ = 0

  -- 1 for a worker whose result has no byte in the pipe yet.
  abbrev pub unwritten : Pc T → ℕ
  unwritten added = 1
  unwritten _ = 0

  -- 1 for a caller that has a byte and not yet its result.
  abbrev pub reading : Caller T → ℕ
  reading pop_read = 1
  reading pop_locked = 1
  reading pop_not_empty = 1
  reading (pop_fronted x) = 1
  reading _ = 0

  -- 1 for a caller that is going to signal.
  abbrev pub signals : Caller T → ℕ
  signals push_added = 1
  signals push_unlocked = 1
  signals _ = 0

  -- 1 for a caller with a job that is not in the queue yet.
  abbrev pub carries : Caller T → ℕ
  carries (push_begun x) = 1
  carries (push_locked x) = 1
  carries _ = 0

  abbrev pub failed : Caller T → Bool
  failed pop_failed = true
  failed _ = false

  abbrev pub passes : (T → Bool) → T → ℕ
  passes p x = one_if (p x)

  -- How many jobs of a list pass a test.
  abbrev pub count : (T → Bool) → List T → ℕ
  count p [] = 0
  count p (x ∷ xs) = passes p x + count p xs

  -- 1 for a worker whose job in hand passes the test.
  abbrev pub in_hand : (T → Bool) → Pc T → ℕ
  in_hand p (took x) = passes p x
  in_hand p (working x) = passes p x
  in_hand p (storing x) = passes p x
  in_hand p (adding x) = passes p x
  in_hand p _ = 0

  -- How many steps a worker has before it waits, with what they leave the caller to do.
  abbrev pub steps_left : Pc T → ℕ
  steps_left waiting = 0
  steps_left (fronted x) = 0
  steps_left not_empty = 1
  steps_left testing = 2
  steps_left idle = 3
  steps_left woken = 3
  steps_left wrote = 4
  steps_left added = 11
  steps_left (adding x) = 12
  steps_left (storing x) = 13
  steps_left (working x) = 14
  steps_left (took x) = 15

  abbrev pub caller_steps_left : Caller T → ℕ
  caller_steps_left free = 0
  caller_steps_left pop_failed = 0
  caller_steps_left (pop_taken x) = 1
  caller_steps_left (pop_fronted x) = 2
  caller_steps_left pop_not_empty = 3
  caller_steps_left pop_locked = 4
  caller_steps_left pop_read = 5
  caller_steps_left push_unlocked = 4
  caller_steps_left push_added = 5
  caller_steps_left (push_locked x) = 22
  caller_steps_left (push_begun x) = 23

  -- The front of the queue is still what a worker has seen of it: there, and what it has copied.
  abbrev pub Ready : List T → Pc T → Type 0
  Ready jobs not_empty = (x : T) × (rest : List T) × (jobs ≡ x ∷ rest)
  Ready jobs (fronted x) = (rest : List T) × (jobs ≡ x ∷ rest)
  Ready jobs _ = Unit

  abbrev pub CallerReady : List T → Caller T → Type 0
  CallerReady results pop_not_empty = (x : T) × (rest : List T) × (results ≡ x ∷ rest)
  CallerReady results (pop_fronted x) = (rest : List T) × (results ≡ x ∷ rest)
  CallerReady results _ = Unit
