-- ===== src/Util/Thread/Invariant/Calls.antt =====
-- A step of the caller keeps what holds of a worker pool, and every state that it reaches has it.
use model_lib.Prelude.{
  ℕ, ◌+◌, ◌<◌, ◌≡◌, ◌≢◌, ◌⊎◌, refl, inl, inr, Bool, false, [], ◌++◌, arith, length,
}
use model_lib.Util.Thread.Family.{put_at, sum, sum-put_at, sum-le, sum-zero}
use model_lib.Util.Thread.State.{Shared, Pc, idle, waiting, woken, Caller}
use model_lib.Util.Thread.Weights.{
  one_if, holds_jobs, caller_holds_jobs, holds_results, caller_holds_results, sleeps, unwritten,
  reading, signals, failed, count, in_hand, CallerReady,
}
use model_lib.Util.Thread.Queue
use model_lib.Util.Thread.SelectableQueue
use model_lib.Util.Thread.WorkerPool.{
  System, pop, push, Call, Work, move, call, signal, signal_none, Step, work, begin_push, wake,
  initial, Reach, begin, later,
}
use model_lib.Util.Thread.Invariant.{Inv, Holds, move_to, add_to, sleeps-le}
use model_lib.Util.Thread.Invariant.Seen.{front_kept, Call-own, Call-jobs}
use model_lib.Util.Thread.Invariant.Moves.{Move-Inv, woken-Inv}
use model_lib.Util.Thread.State.{free, push_begun, push_unlocked}

module _ {T : Type 0} where
  module _ {n : ℕ} {m : Shared T} {ws : ℕ → Pc T} where
    Call-counts :
        {m' : Shared T} {c c' : Caller T}
        → Inv n m ws c
        → Call m c m' c'
        → (sum holds_jobs ws n + caller_holds_jobs c' ≡ one_if m'.jobs_locked)
          × (sum holds_results ws n + caller_holds_results c' ≡ one_if m'.results_locked)
          × (length m'.results ≡ m'.pipe + sum unwritten ws n + reading c')
          × ((m'.jobs ≡ []) ⊎ (sum sleeps ws n < n + signals c'))
          × (failed c' ≡ false)
    Call-counts inv (push (Queue.Push.lock h)) =
        ground (arith, inv.jobs_held, inv.results_held, inv.bytes, inv.awake)
    Call-counts inv (push (Queue.Push.add {x})) = ground (
      arith,
      inv.jobs_held,
      inv.results_held,
      inv.bytes,
      inv.awake,
      sum-le sleeps ws n (λ j. sleeps-le (ws j)),
    )
    Call-counts inv (push Queue.Push.unlock) =
        ground (arith, inv.jobs_held, inv.results_held, inv.bytes, inv.awake)
    Call-counts inv (pop (SelectableQueue.Pop.read h)) =
        ground (arith, inv.jobs_held, inv.results_held, inv.bytes, inv.awake)
    Call-counts inv (pop (SelectableQueue.Pop.lock h)) =
        ground (arith, inv.jobs_held, inv.results_held, inv.bytes, inv.awake)
    Call-counts inv (pop (SelectableQueue.Pop.fail h)) =
        ground (arith, inv.jobs_held, inv.results_held, inv.bytes, inv.awake)
    Call-counts inv (pop (SelectableQueue.Pop.enter h)) =
        ground (arith, inv.jobs_held, inv.results_held, inv.bytes, inv.awake)
    Call-counts inv (pop (SelectableQueue.Pop.front h)) =
        ground (arith, inv.jobs_held, inv.results_held, inv.bytes, inv.awake)
    Call-counts inv (pop (SelectableQueue.Pop.remove h)) =
        ground (arith, inv.jobs_held, inv.results_held, inv.bytes, inv.awake)
    Call-counts inv (pop SelectableQueue.Pop.unlock) =
        ground (arith, inv.jobs_held, inv.results_held, inv.bytes, inv.awake)

    Call-orders :
        {m' : Shared T} {c c' : Caller T}
        → Inv n m ws c
        → Call m c m' c'
        → (m'.pushed ≡ m'.taken ++ m'.jobs) × (m'.finished ≡ m'.popped ++ m'.results)
    Call-orders inv (push (Queue.Push.add {x})) =
        (add_to m.pushed m.taken m.jobs x inv.order_in, inv.order_out)
    Call-orders inv (pop (SelectableQueue.Pop.remove {x} {y} {rest} h)) =
        let (rest', e) = inv.results_seen in
        (
          inv.order_in,
          move_to m.finished m.popped m.results rest x inv.order_out
              (front_kept m.results rest rest' x y e h),
        )
    Call-orders inv (pop (SelectableQueue.Pop.enter h)) = (inv.order_in, inv.order_out)
    Call-orders inv (pop (SelectableQueue.Pop.front h)) = (inv.order_in, inv.order_out)
    Call-orders inv (push (Queue.Push.lock h)) = (inv.order_in, inv.order_out)
    Call-orders inv (push Queue.Push.unlock) = (inv.order_in, inv.order_out)
    Call-orders inv (pop (SelectableQueue.Pop.read h)) = (inv.order_in, inv.order_out)
    Call-orders inv (pop (SelectableQueue.Pop.lock h)) = (inv.order_in, inv.order_out)
    Call-orders inv (pop (SelectableQueue.Pop.fail h)) = (inv.order_in, inv.order_out)
    Call-orders inv (pop SelectableQueue.Pop.unlock) = (inv.order_in, inv.order_out)

    Call-kept :
        {m' : Shared T} {c c' : Caller T} (t : T → Bool)
        → Inv n m ws c
        → Call m c m' c'
        → count t m'.taken ≡ sum (in_hand t) ws n + count t m'.finished
    Call-kept t inv (push (Queue.Push.lock h)) = inv.kept t
    Call-kept t inv (push (Queue.Push.add)) = inv.kept t
    Call-kept t inv (push Queue.Push.unlock) = inv.kept t
    Call-kept t inv (pop (SelectableQueue.Pop.read h)) = inv.kept t
    Call-kept t inv (pop (SelectableQueue.Pop.lock h)) = inv.kept t
    Call-kept t inv (pop (SelectableQueue.Pop.fail h)) = inv.kept t
    Call-kept t inv (pop (SelectableQueue.Pop.enter h)) = inv.kept t
    Call-kept t inv (pop (SelectableQueue.Pop.front h)) = inv.kept t
    Call-kept t inv (pop (SelectableQueue.Pop.remove h)) = inv.kept t
    Call-kept t inv (pop SelectableQueue.Pop.unlock) = inv.kept t

    Call-Inv : {m' : Shared T} {c c' : Caller T} → Inv n m ws c → Call m c m' c' → Inv n m' ws c'
    Call-Inv inv mv =
        let (jobs, results, pipe, up, good) = Call-counts inv mv in
        let (before, after) = Call-orders inv mv in
        record {
          jobs_held = jobs;
          results_held = results;
          order_in = before;
          order_out = after;
          kept = λ t. Call-kept t inv mv;
          bytes = pipe;
          awake = up;
          sound = good;
          jobs_seen = λ i lt. Call-jobs (ws i) mv (inv.jobs_seen i lt);
          results_seen = Call-own mv;
        }

    -- The caller goes on to a state in which it holds nothing.
    leave-Inv :
        {c : Caller T} (inv : Inv n m ws c) (c' : Caller T)
        → caller_holds_jobs c' ≡ caller_holds_jobs c
        → caller_holds_results c' ≡ caller_holds_results c
        → reading c' ≡ reading c
        → failed c' ≡ false
        → CallerReady m.results c'
        → (m.jobs ≡ []) ⊎ (sum sleeps ws n < n + signals c')
        → Inv n m ws c'
    leave-Inv inv c' j r b f seen up = record {
      jobs_held = omega (arith, inv.jobs_held);
      results_held = omega (arith, inv.results_held);
      order_in = inv.order_in;
      order_out = inv.order_out;
      kept = inv.kept;
      bytes = omega (arith, inv.bytes);
      awake = up;
      sound = f;
      jobs_seen = inv.jobs_seen;
      results_seen = seen;
    }

  none_sleeps : (p : Pc T) → p ≢ waiting → sleeps p ≡ 0
  none_sleeps p h = ground arith

  idle-sum : (weight : Pc T → ℕ) (n : ℕ) → weight idle ≡ 0 → sum weight (λ i. idle) n ≡ 0
  idle-sum weight n h = sum-zero weight (λ i. idle) n (λ i b. h)

  pub signal-Inv :
      {n : ℕ} (s : System T) (i : ℕ)
      → Holds n s
      → i < n
      → s.workers i ≡ waiting
      → s.caller ≡ push_unlocked
      → Inv n s.shared (put_at i woken s.workers) free
  signal-Inv {n} s i inv lt e c =
      leave-Inv (woken-Inv inv i lt e) free (rw c refl) (rw c refl) (rw c refl) refl tt (
        inr (
          ground (
            arith,
            sum-put_at sleeps s.workers i n woken lt,
            sum-le sleeps s.workers n (λ j. sleeps-le (s.workers j)),
            e,
          )))

  initial-Inv : (n : ℕ) → Holds n (initial {T = T})
  initial-Inv n = record {
    jobs_held = omega (arith, idle-sum holds_jobs n refl);
    results_held = omega (arith, idle-sum holds_results n refl);
    order_in = refl;
    order_out = refl;
    kept = λ p. omega (arith, idle-sum (in_hand p) n refl);
    bytes = omega (arith, idle-sum unwritten n refl);
    awake = inl refl;
    sound = refl;
    jobs_seen = λ i lt. tt;
    results_seen = tt;
  }

  module _ {n room : ℕ} (some_worker : 0 < n) where
    pub Work-Inv : {s t : System T} → Work n room s t → Holds n s → Holds n t
    Work-Inv (move i lt mv) inv = Move-Inv inv i lt mv
    Work-Inv (call k) inv = Call-Inv inv k
    Work-Inv {s} (signal i lt e c) inv = signal-Inv s i inv lt e c
    Work-Inv {s} (signal_none h c) inv =
        leave-Inv inv free (rw c refl) (rw c refl) (rw c refl) refl tt (
          inr (
            omega (
              arith,
              some_worker,
              sum-zero sleeps s.workers n (λ j b. none_sleeps (s.workers j) (h j b)),
            )))

    Step-Inv : {s t : System T} → Step n room s t → Holds n s → Holds n t
    Step-Inv (work w) inv = Work-Inv w inv
    Step-Inv (begin_push x c) inv =
        leave-Inv inv (push_begun x) (rw c refl) (rw c refl) (rw c refl) refl tt
          (ground (arith, inv.awake, c))
    Step-Inv (wake i lt e) inv = woken-Inv inv i lt e

    pub Reach-Inv : {s : System T} → Reach n room s → Holds n s
    Reach-Inv begin = initial-Inv n
    Reach-Inv (later r st) = Step-Inv st (Reach-Inv r)
