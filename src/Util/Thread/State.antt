-- ===== src/Util/Thread/State.antt =====
-- What the threads of ssdb/src/util/thread.h share, and where each of them stands. A mutex is whether it
-- is locked. The calls of pthread on a mutex that is set up do not fail.
use model_lib.Prelude.{ℕ, Bool, List}

-- The members of `Queue<JOB> jobs` and of `SelectableQueue<JOB> results`, with the bytes in the pipe;
-- then what happened, for the theorems: the jobs pushed, taken, finished and popped so far, in order.
pub record Shared (T : Type 0) : Type 0 where
  pub jobs : List T
  pub jobs_locked : Bool
  pub results : List T
  pub results_locked : Bool
  pub pipe : ℕ
  pub pushed : List T
  pub taken : List T
  pub finished : List T
  pub popped : List T

-- Where a worker stands in `_run_worker`, with the job in its hand.
pub data Pc (T : Type 0) : Type 0 where
  idle : Pc T  -- `jobs.pop` is called: before its lock
  testing : Pc T  -- before `items.empty()`, with the lock
  waiting : Pc T  -- in `pthread_cond_wait`
  woken : Pc T  -- signalled, before it has the lock again
  not_empty : Pc T  -- before `items.front()`, with the lock
  fronted : T → Pc T  -- before `items.pop()`, with the lock and a copy of the front
  took : T → Pc T  -- before the unlock
  working : T → Pc T  -- before `proc`
  storing : T → Pc T  -- `results.push` is called: before its lock
  adding : T → Pc T  -- before `items.push`, with the lock
  added : Pc T  -- before the write, with the lock
  wrote : Pc T  -- before the unlock

-- Where the thread that uses the pool stands, in `push` or in `pop`.
pub data Caller (T : Type 0) : Type 0 where
  free : Caller T  -- in neither, or at the read of the pipe
  push_begun : T → Caller T  -- before the lock
  push_locked : T → Caller T  -- before `items.push`, with the lock
  push_added : Caller T  -- before the unlock
  push_unlocked : Caller T  -- before the signal
  pop_read : Caller T  -- a byte was read; before the lock
  pop_locked : Caller T  -- before `items.empty()`, with the lock
  pop_not_empty : Caller T  -- before `items.front()`, with the lock
  pop_fronted : T → Caller T  -- before `items.pop()`, with the lock and a copy of the front
  pop_taken : T → Caller T  -- before the unlock
  pop_failed : Caller T  -- -1 was returned: a byte, but no item
