-- ===== src/Util/Thread/Progress/Moves.antt =====
-- Which workers of a pool can go on.
use model_lib.Prelude.{ℕ, ◌+◌, ◌≤◌, ◌<◌, ◌≡◌, refl, false, List, [], ◌∷◌, arith}
use model_lib.Util.Thread.State.{
  Shared, Pc, idle, testing, waiting, woken, not_empty, fronted, took, working, storing, adding,
  added, wrote,
}
use model_lib.Util.Thread.Weights.{holds_jobs, holds_results, sleeps, unwritten, Ready}
use model_lib.Util.Thread.Queue
use model_lib.Util.Thread.SelectableQueue
use model_lib.Util.Thread.WorkerPool.{Move, pop, proc, push}

module _ {T : Type 0} where
  abbrev pub CanMove : ℕ → Shared T → Pc T → Type 0
  CanMove room m p = (m' : Shared T) × (p' : Pc T) × Move room m p m' p'

  test_moves : (room : ℕ) (m : Shared T) (xs : List T) → m.jobs ≡ xs → CanMove room m testing
  test_moves room m [] h = (_, _, pop (Queue.Pop.wait h))
  test_moves room m (x ∷ xs) h = (_, _, pop (Queue.Pop.leave h))

  -- A worker that holds the lock of the jobs goes on.
  pub holder_moves :
      (room : ℕ) (m : Shared T) (p : Pc T) → 0 < holds_jobs p → Ready m.jobs p → CanMove room m p
  holder_moves room m testing h r = test_moves room m m.jobs refl
  holder_moves room m not_empty h (x, rest, e) = (_, _, pop (Queue.Pop.front e))
  holder_moves room m (fronted x) h (rest, e) = (_, _, pop (Queue.Pop.remove e))
  holder_moves room m (took x) h r = (_, _, pop Queue.Pop.unlock)
  holder_moves room m p h r = absurd (ground arith)

  -- A worker that holds the lock of the results goes on, if the pipe has room for its byte.
  pub writer_moves :
      (room : ℕ) (m : Shared T) (p : Pc T)
      → 0 < holds_results p
      → m.pipe + unwritten p ≤ room
      → CanMove room m p
  writer_moves room m (adding x) h b = (_, _, push SelectableQueue.Push.add)
  writer_moves room m added h b = (_, _, push (SelectableQueue.Push.write (omega arith)))
  writer_moves room m wrote h b = (_, _, push SelectableQueue.Push.unlock)
  writer_moves room m p h b = absurd (ground arith)

  -- Where no lock is held, every worker that does not wait goes on.
  pub worker_moves :
      (room : ℕ) (m : Shared T) (p : Pc T)
      → sleeps p ≡ 0
      → m.jobs_locked ≡ false
      → m.results_locked ≡ false
      → m.pipe + unwritten p ≤ room
      → Ready m.jobs p
      → CanMove room m p
  worker_moves room m idle w j r b seen = (_, _, pop (Queue.Pop.lock j))
  worker_moves room m testing w j r b seen = test_moves room m m.jobs refl
  worker_moves room m waiting w j r b seen = absurd (omega arith)
  worker_moves room m woken w j r b seen = (_, _, pop (Queue.Pop.relock j))
  worker_moves room m not_empty w j r b (x, rest, e) = (_, _, pop (Queue.Pop.front e))
  worker_moves room m (fronted x) w j r b (rest, e) = (_, _, pop (Queue.Pop.remove e))
  worker_moves room m (took x) w j r b seen = (_, _, pop Queue.Pop.unlock)
  worker_moves room m (working x) w j r b seen = (_, _, proc)
  worker_moves room m (storing x) w j r b seen = (_, _, push (SelectableQueue.Push.lock r))
  worker_moves room m (adding x) w j r b seen = (_, _, push SelectableQueue.Push.add)
  worker_moves room m added w j r b seen = (_, _, push (SelectableQueue.Push.write (omega arith)))
  worker_moves room m wrote w j r b seen = (_, _, push SelectableQueue.Push.unlock)
