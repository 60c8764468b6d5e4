-- ===== src/Tests/Thread.antt =====
-- Tests of the worker pool: two workers, and a pipe with room for four bytes.
use model_lib.Prelude.{
  ℕ, ◌+◌, ◌≤◌, ◌≡◌, ◌≢◌, ◌⊎◌, refl, Bool, true, false, [], ◌∷◌, ◌++◌, arith, length,
}
use model_lib.Util.Thread.Family.{put_at, sum}
use model_lib.Util.Thread.State.{idle, testing, push_unlocked, pop_failed, pop_read}
use model_lib.Util.Thread.Weights.{count, in_hand}
use model_lib.Util.Thread.Queue
use model_lib.Util.Thread.WorkerPool.{
  System, pop, push, call, move, initial, work, begin_push, Reach, begin, later, Run, stay,
  one_more,
}
use model_lib.Util.Thread.Safety.{jobs_conserved, pop_never_fails}
use model_lib.Util.Thread.Progress.{IsDone, GoesOn}
use model_lib.Util.Thread.Liveness.{todo, all_popped}
use model_lib.Util.Thread.FullPipe.{full_pipe_stops}
use model_lib.Util.Thread.FullPipe.Stuck.{After}

-- The caller has pushed job 7 and is about to signal.
abbrev pushed : System ℕ
pushed = record {
  shared = record {
    jobs = 7 ∷ [];
    jobs_locked = false;
    results = [];
    results_locked = false;
    pipe = 0;
    pushed = 7 ∷ [];
    taken = [];
    finished = [];
    popped = [];
  };
  workers = λ i. idle;
  caller = push_unlocked;
}

pushed-Reach : Reach 2 4 pushed
pushed-Reach =
    let start : Reach 2 4 (initial {T = ℕ}) = begin in
    let asked = later start (begin_push 7 refl) in
    let locked = later asked (work (call (push (Queue.Push.lock refl)))) in
    let added = later locked (work (call (push Queue.Push.add))) in
    later added (work (call (push Queue.Push.unlock)))

-- Worker 0 has the lock, and is about to look for a job.
abbrev locked : System ℕ
locked = record {
  shared = record {
    jobs = 7 ∷ [];
    jobs_locked = true;
    results = [];
    results_locked = false;
    pipe = 0;
    pushed = 7 ∷ [];
    taken = [];
    finished = [];
    popped = [];
  };
  workers = put_at 0 testing (λ i. idle);
  caller = push_unlocked;
}

locks : Run 2 4 pushed 1 locked
locks = one_more stay (move 0 (omega arith) (pop (Queue.Pop.lock refl)))

jobs_conserved_example :
    (pushed.shared.pushed ≡ pushed.shared.taken ++ pushed.shared.jobs)
    × (pushed.shared.finished ≡ pushed.shared.popped ++ pushed.shared.results)
    × ((p : ℕ → Bool)
        → count p pushed.shared.pushed
          ≡ count p pushed.shared.jobs
            + sum (in_hand p) pushed.workers 2
            + count p pushed.shared.results
            + count p pushed.shared.popped)
jobs_conserved_example = jobs_conserved (omega arith) pushed-Reach

pop_never_fails_example :
    (pushed.caller ≢ pop_failed) × (pushed.shared.pipe ≤ length pushed.shared.results)
pop_never_fails_example = pop_never_fails (omega arith) pushed-Reach

all_popped_example :
    (1 ≤ todo 2 pushed)
    × (GoesOn 2 4 locked ⊎ IsDone locked)
    × ((j : ℕ) × (u : System ℕ) × Run 2 4 locked j u × IsDone u)
all_popped_example = all_popped (omega arith) pushed-Reach (omega arith) locks

full_pipe_stops_example :
    (s : System ℕ) × Reach 2 4 s
    × (length s.shared.pushed ≡ 4 + 2)
    × ((t : System ℕ) → After 2 4 s t → (t.caller ≡ pop_read) × (t.shared.popped ≡ []))
full_pipe_stops_example = full_pipe_stops {n = 2} {room = 4} 7 (omega arith) (omega arith)
