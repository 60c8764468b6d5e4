-- ===== src/Util/Thread/WorkerPool.antt =====
-- `WorkerPool` of ssdb/src/util/thread.h: one caller and `n` workers, interleaved in any order.
use model_lib.Prelude.{
  ℕ, zero, suc, ◌+◌, ◌<◌, ◌≡◌, ◌≢◌, Option, none, some, ◌++◌, Bool, true, false, List, [], ◌∷◌,
  if◌then◌else◌,
}
use model_lib.Util.Thread.Family.{put_at}
use model_lib.Util.Thread.State.{
  Shared, Pc, idle, waiting, woken, working, storing, Caller, free, push_begun, push_unlocked,
}
use model_lib.Util.Thread.Queue
use model_lib.Util.Thread.SelectableQueue

-- The members of the pool that `start` and `stop` change. `T` stands for a thread of pthread.
pub record Pool (T : Type 0) : Type 0 where
  pub num_workers : ℕ
  pub tids : List T
  pub started : Bool

module _ {T : Type 0} where
  -- The constructor. `num_workers` is not initialised in the source.
  unfoldable pub new_pool : ℕ → Pool T
  new_pool garbage = record { num_workers = garbage; tids = []; started = false }

  -- The loop of `start`: `create i` is the thread that the system makes for worker `i`, if it does.
  abbrev create_all : (ℕ → Option T) → ℕ → ℕ → List T → List T
  create_all create i zero tids = tids
  create_all create i (suc n) tids =
      create_all create (i + 1) n (elim (create i) [ none ↦ tids | some t ↦ tids ++ t ∷ [] ])

  unfoldable pub start : (ℕ → Option T) → ℕ → Pool T → Pool T
  start create num_workers p =
      if p.started then record p { num_workers = num_workers } else record p {
        num_workers = num_workers;
        tids = create_all create 0 num_workers p.tids;
        started = true;
      }

  -- The pool, and the threads that are cancelled.
  unfoldable pub stop : Pool T → Pool T × List T
  stop p = (record p { started = false }, p.tids)

-- The loop of `_run_worker`: a job is popped, handled, and pushed to the results.
pub data Move {T : Type 0} (room : ℕ) (m : Shared T) : Pc T → Shared T → Pc T → Type 0 where
  pop : {p p' : Pc T} {m' : Shared T} → Queue.Pop m p m' p' → Move room m p m' p'
  proc : {x : T} → Move room m (working x) m (storing x)
  push : {p p' : Pc T} {m' : Shared T} → SelectableQueue.Push room m p m' p' → Move room m p m' p'

-- What the caller does inside `push` and `pop`.
pub data Call {T : Type 0} (m : Shared T) : Caller T → Shared T → Caller T → Type 0 where
  push : {c c' : Caller T} {m' : Shared T} → Queue.Push m c m' c' → Call m c m' c'
  pop : {c c' : Caller T} {m' : Shared T} → SelectableQueue.Pop m c m' c' → Call m c m' c'

pub record System (T : Type 0) : Type 0 where
  pub shared : Shared T
  pub workers : ℕ → Pc T
  pub caller : Caller T

-- The steps that the threads take of themselves. A signal wakes one of the workers that wait, if any.
pub data Work {T : Type 0} (n room : ℕ) (s : System T) : System T → Type 0 where
  move :
      (i : ℕ) {m : Shared T} {p : Pc T}
      → i < n
      → Move room s.shared (s.workers i) m p
      → Work n room s (record s { shared = m; workers = put_at i p s.workers })
  call :
      {m : Shared T} {c : Caller T}
      → Call s.shared s.caller m c
      → Work n room s (record s { shared = m; caller = c })
  signal :
      (i : ℕ)
      → i < n
      → s.workers i ≡ waiting
      → s.caller ≡ push_unlocked
      → Work n room s (record s { workers = put_at i woken s.workers; caller = free })
  signal_none :
      ((i : ℕ) → i < n → s.workers i ≢ waiting)
      → s.caller ≡ push_unlocked
      → Work n room s (record s { caller = free })

-- Besides, the caller begins to push a job, and a worker is woken for no reason.
pub data Step {T : Type 0} (n room : ℕ) (s : System T) : System T → Type 0 where
  work : {t : System T} → Work n room s t → Step n room s t
  begin_push : (x : T) → s.caller ≡ free → Step n room s (record s { caller = push_begun x })
  wake :
      (i : ℕ)
      → i < n
      → s.workers i ≡ waiting
      → Step n room s (record s { workers = put_at i woken s.workers })

module _ {T : Type 0} where
  -- Both queues empty, and every worker at the head of its loop.
  abbrev pub initial : System T
  initial = record {
    shared = record {
      jobs = [];
      jobs_locked = false;
      results = [];
      results_locked = false;
      pipe = 0;
      pushed = [];
      taken = [];
      finished = [];
      popped = [];
    };
    workers = λ i. idle;
    caller = free;
  }

pub data Reach {T : Type 0} (n room : ℕ) : System T → Type 0 where
  begin : Reach n room initial
  later : {s t : System T} → Reach n room s → Step n room s t → Reach n room t

-- `k` steps that the threads take of themselves.
pub data Run {T : Type 0} (n room : ℕ) (s : System T) : ℕ → System T → Type 0 where
  stay : Run n room s 0 s
  one_more : {k : ℕ} {t u : System T} → Run n room s k t → Work n room t u → Run n room s (suc k) u
