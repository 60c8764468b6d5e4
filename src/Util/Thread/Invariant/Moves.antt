-- ===== src/Util/Thread/Invariant/Moves.antt =====
-- A step of a worker keeps what holds of a worker pool.
use native.Mathlib.Decide.{ℕ_discrete}
use mathlib.Core.Logic.{ite}
use model_lib.Prelude.{
  ℕ, List, ◌≢◌, ◌+◌, ◌≤◌, ◌<◌, ◌≡◌, ◌⊎◌, refl, sym, ap, ◌∙◌, inr, Bool, [], ◌∷◌, ◌++◌, arith,
  length, length-append,
}
use model_lib.Util.Thread.Family.{put_at, sum, sum-put_at, sum-le}
use model_lib.Util.Thread.State.{Shared, Pc, waiting, woken, Caller}
use model_lib.Util.Thread.Weights.{
  one_if, holds_jobs, caller_holds_jobs, holds_results, caller_holds_results, sleeps, unwritten,
  reading, signals, count, in_hand, Ready,
}
use model_lib.Util.Thread.Queue
use model_lib.Util.Thread.SelectableQueue
use model_lib.Util.Thread.WorkerPool.{Move, pop, proc, push}
use model_lib.Util.Thread.Invariant.{Inv, count-append, move_to, add_to, sleeps-le, alone}
use model_lib.Util.Thread.Invariant.Seen.{Ready-outside, front_kept, Move-own, Move-results}

module _ {T : Type 0} where
  module _ {n : ℕ} {m : Shared T} {ws : ℕ → Pc T} {c : Caller T} (inv : Inv n m ws c) (i : ℕ)
      (lt : i < n) where
    open inv use {
      jobs_held, results_held, order_in, order_out, kept, bytes, awake, sound, jobs_seen,
      results_seen,
    }

    -- A move of worker `i` changes what the workers weigh by what it changes for that one.
    moved :
        {p : Pc T} (weight : Pc T → ℕ) (p' : Pc T)
        → ws i ≡ p
        → sum weight (put_at i p' ws) n + weight p ≡ sum weight ws n + weight p'
    moved weight p' e =
        ap (λ q. sum weight (put_at i p' ws) n + weight q) (sym e) ∙ sum-put_at weight ws i n p' lt

    abbrev Changed : Pc T → Pc T → (Pc T → ℕ) → Type 0
    Changed p p' weight = sum weight (put_at i p' ws) n + weight p ≡ sum weight ws n + weight p'

    -- All that is known of the counts before and after the move.
    facts :
        {p : Pc T} (p' : Pc T)
        → ws i ≡ p
        → Changed p p' holds_jobs
          × Changed p p' holds_results
          × Changed p p' unwritten
          × Changed p p' sleeps
          × (sum sleeps ws n ≤ n)
    facts p' e = (
      moved holds_jobs p' e,
      moved holds_results p' e,
      moved unwritten p' e,
      moved sleeps p' e,
      sum-le sleeps ws n (λ j. sleeps-le (ws j)),
    )

    Move-counts :
        {room : ℕ} {p p' : Pc T} {m' : Shared T}
        → ws i ≡ p
        → Move room m p m' p'
        → (sum holds_jobs (put_at i p' ws) n + caller_holds_jobs c ≡ one_if m'.jobs_locked)
          × (sum holds_results (put_at i p' ws) n + caller_holds_results c
              ≡ one_if m'.results_locked)
          × (length m'.results ≡ m'.pipe + sum unwritten (put_at i p' ws) n + reading c)
          × ((m'.jobs ≡ []) ⊎ (sum sleeps (put_at i p' ws) n < n + signals c))
    Move-counts {p'} e (pop (Queue.Pop.lock h)) =
        ground (arith, jobs_held, results_held, bytes, awake, facts p' e)
    Move-counts {p'} e (pop (Queue.Pop.wait h)) =
        ground (arith, jobs_held, results_held, bytes, awake, facts p' e)
    Move-counts {p'} e (pop (Queue.Pop.relock h)) =
        ground (arith, jobs_held, results_held, bytes, awake, facts p' e)
    Move-counts {p'} e (pop (Queue.Pop.leave h)) =
        ground (arith, jobs_held, results_held, bytes, awake, facts p' e)
    Move-counts {p'} e (pop (Queue.Pop.front h)) =
        ground (arith, jobs_held, results_held, bytes, awake, facts p' e)
    Move-counts {p'} e (pop (Queue.Pop.remove h)) =
        ground (arith, jobs_held, results_held, bytes, awake, facts p' e)
    Move-counts {p'} e (pop Queue.Pop.unlock) =
        ground (arith, jobs_held, results_held, bytes, awake, facts p' e)
    Move-counts {p'} e proc = ground (arith, jobs_held, results_held, bytes, awake, facts p' e)
    Move-counts {p'} e (push (SelectableQueue.Push.lock h)) =
        ground (arith, jobs_held, results_held, bytes, awake, facts p' e)
    Move-counts {p'} e (push (SelectableQueue.Push.add {x})) =
        ground (
          arith,
          jobs_held,
          results_held,
          bytes,
          awake,
          facts p' e,
          length-append m.results (x ∷ []),
        )
    Move-counts {p'} e (push (SelectableQueue.Push.write h)) =
        ground (arith, jobs_held, results_held, bytes, awake, facts p' e)
    Move-counts {p'} e (push SelectableQueue.Push.unlock) =
        ground (arith, jobs_held, results_held, bytes, awake, facts p' e)

    Move-kept :
        {room : ℕ} {p p' : Pc T} {m' : Shared T} (t : T → Bool)
        → ws i ≡ p
        → Move room m p m' p'
        → count t m'.taken ≡ sum (in_hand t) (put_at i p' ws) n + count t m'.finished
    Move-kept {p'} t e (pop (Queue.Pop.leave h)) = ground (arith, kept t, moved (in_hand t) p' e)
    Move-kept {p'} t e (pop (Queue.Pop.front h)) = ground (arith, kept t, moved (in_hand t) p' e)
    Move-kept {p'} t e (pop (Queue.Pop.remove {x} h)) =
        ground (arith, kept t, moved (in_hand t) p' e, count-append t m.taken (x ∷ []))
    Move-kept {p'} t e (push (SelectableQueue.Push.add {x})) =
        ground (arith, kept t, moved (in_hand t) p' e, count-append t m.finished (x ∷ []))
    Move-kept {p'} t e (pop (Queue.Pop.lock h)) = ground (arith, kept t, moved (in_hand t) p' e)
    Move-kept {p'} t e (pop (Queue.Pop.wait h)) = ground (arith, kept t, moved (in_hand t) p' e)
    Move-kept {p'} t e (pop (Queue.Pop.relock h)) = ground (arith, kept t, moved (in_hand t) p' e)
    Move-kept {p'} t e (pop Queue.Pop.unlock) = ground (arith, kept t, moved (in_hand t) p' e)
    Move-kept {p'} t e proc = ground (arith, kept t, moved (in_hand t) p' e)
    Move-kept {p'} t e (push (SelectableQueue.Push.lock h)) =
        ground (arith, kept t, moved (in_hand t) p' e)
    Move-kept {p'} t e (push (SelectableQueue.Push.write h)) =
        ground (arith, kept t, moved (in_hand t) p' e)
    Move-kept {p'} t e (push SelectableQueue.Push.unlock) =
        ground (arith, kept t, moved (in_hand t) p' e)

    Move-orders :
        {room : ℕ} {p p' : Pc T} {m' : Shared T}
        → Move room m p m' p'
        → Ready m.jobs p
        → (m'.pushed ≡ m'.taken ++ m'.jobs) × (m'.finished ≡ m'.popped ++ m'.results)
    Move-orders (pop (Queue.Pop.remove {x} {y} {rest} h)) (rest', e) = (
      move_to m.pushed m.taken m.jobs rest x order_in (front_kept m.jobs rest rest' x y e h),
      order_out,
    )
    Move-orders (pop (Queue.Pop.leave h)) r = (order_in, order_out)
    Move-orders (pop (Queue.Pop.front h)) r = (order_in, order_out)
    Move-orders (push (SelectableQueue.Push.add {x})) r =
        (order_in, add_to m.finished m.popped m.results x order_out)
    Move-orders (pop (Queue.Pop.lock h)) r = (order_in, order_out)
    Move-orders (pop (Queue.Pop.wait h)) r = (order_in, order_out)
    Move-orders (pop (Queue.Pop.relock h)) r = (order_in, order_out)
    Move-orders (pop Queue.Pop.unlock) r = (order_in, order_out)
    Move-orders proc r = (order_in, order_out)
    Move-orders (push (SelectableQueue.Push.lock h)) r = (order_in, order_out)
    Move-orders (push (SelectableQueue.Push.write h)) r = (order_in, order_out)
    Move-orders (push SelectableQueue.Push.unlock) r = (order_in, order_out)

    -- Only a worker with the lock changes the queue, and the others have seen nothing then.
    Move-others :
        {room : ℕ} {p p' : Pc T} {m' : Shared T} (j : ℕ)
        → ws i ≡ p
        → Move room m p m' p'
        → j < n
        → i ≢ j
        → Ready m'.jobs (ws j)
    Move-others j e (pop (Queue.Pop.remove h)) k ne =
        Ready-outside _ (ws j) (alone inv i j lt k ne (ap holds_jobs e))
    Move-others j e (pop (Queue.Pop.leave h)) k ne = jobs_seen j k
    Move-others j e (pop (Queue.Pop.front h)) k ne = jobs_seen j k
    Move-others j e (pop (Queue.Pop.lock h)) k ne = jobs_seen j k
    Move-others j e (pop (Queue.Pop.wait h)) k ne = jobs_seen j k
    Move-others j e (pop (Queue.Pop.relock h)) k ne = jobs_seen j k
    Move-others j e (pop Queue.Pop.unlock) k ne = jobs_seen j k
    Move-others j e proc k ne = jobs_seen j k
    Move-others j e (push (SelectableQueue.Push.lock h)) k ne = jobs_seen j k
    Move-others j e (push SelectableQueue.Push.add) k ne = jobs_seen j k
    Move-others j e (push (SelectableQueue.Push.write h)) k ne = jobs_seen j k
    Move-others j e (push SelectableQueue.Push.unlock) k ne = jobs_seen j k

    -- A change of one worker, where the others have seen what they have.
    seen-put_at :
        (jobs : List T) (p' : Pc T)
        → Ready jobs p'
        → ((j : ℕ) → j < n → i ≢ j → Ready jobs (ws j))
        → (j : ℕ) → j < n
        → Ready jobs (put_at i p' ws j)
    seen-put_at jobs p' own others j k =
        elim (ℕ_discrete i j) as (λ d. Ready jobs (ite d p' (ws j))) [
          | yes e ↦ own
          | no ne ↦ others j k ne
        ]

    pub Move-Inv :
        {room : ℕ} {m' : Shared T} {p' : Pc T}
        → Move room m (ws i) m' p'
        → Inv n m' (put_at i p' ws) c
    Move-Inv mv =
        let (jobs, results, pipe, up) = Move-counts refl mv in
        let (before, after) = Move-orders mv (jobs_seen i lt) in
        record {
          jobs_held = jobs;
          results_held = results;
          order_in = before;
          order_out = after;
          kept = λ t. Move-kept t refl mv;
          bytes = pipe;
          awake = up;
          sound = sound;
          jobs_seen = seen-put_at _ _ (Move-own mv) (λ j k ne. Move-others j refl mv k ne);
          results_seen = Move-results c mv results_seen;
        }

    -- A worker that waits is woken.
    pub woken-Inv : ws i ≡ waiting → Inv n m (put_at i woken ws) c
    woken-Inv e = record {
      jobs_held = ground (arith, jobs_held, facts woken e);
      results_held = ground (arith, results_held, facts woken e);
      order_in = order_in;
      order_out = order_out;
      kept = λ t. ground (arith, kept t, moved (in_hand t) woken e);
      bytes = ground (arith, bytes, facts woken e);
      awake = inr (ground (arith, facts woken e));
      sound = sound;
      jobs_seen = seen-put_at m.jobs woken tt (λ j k ne. jobs_seen j k);
      results_seen = results_seen;
    }
