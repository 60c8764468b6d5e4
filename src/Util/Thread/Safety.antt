-- ===== src/Util/Thread/Safety.antt =====
-- What a worker pool of ssdb/src/util/thread.h does with its jobs.
use model_lib.Prelude.{ℕ, ◌+◌, ◌≤◌, ◌<◌, ◌≡◌, ◌≢◌, ap, Bool, ◌++◌, arith, length}
use model_lib.Util.Thread.Family.{sum}
use model_lib.Util.Thread.State.{pop_failed}
use model_lib.Util.Thread.Weights.{count, in_hand}
use model_lib.Util.Thread.WorkerPool.{System, Reach}
use model_lib.Util.Thread.Invariant.{count-append}
use model_lib.Util.Thread.Invariant.Calls.{Reach-Inv}

module _ {T : Type 0} {n room : ℕ} {s : System T} (some_worker : 0 < n) where
  -- In every state that a pool with a worker reaches, no job is lost, doubled or changed: the jobs are
  -- taken in the order in which they were pushed and popped in the order in which they were finished,
  -- and of the jobs pushed that pass a test, each is in the queue, in the hand of a worker, in the
  -- results, or popped.
  pub jobs_conserved :
      Reach n room s
      → (s.shared.pushed ≡ s.shared.taken ++ s.shared.jobs)
        × (s.shared.finished ≡ s.shared.popped ++ s.shared.results)
        × ((p : T → Bool)
            → count p s.shared.pushed
              ≡ count p s.shared.jobs
                + sum (in_hand p) s.workers n
                + count p s.shared.results
                + count p s.shared.popped)
  jobs_conserved r =
      let inv = Reach-Inv some_worker r in
      (
        inv.order_in,
        inv.order_out,
        λ p. omega (
          arith,
          inv.kept p,
          ap (count p) inv.order_in,
          ap (count p) inv.order_out,
          count-append p s.shared.taken s.shared.jobs,
          count-append p s.shared.popped s.shared.results,
        ),
      )

  -- `SelectableQueue::pop` never has a byte without an item, which is its error.
  pub pop_never_fails :
      Reach n room s → (s.caller ≢ pop_failed) × (s.shared.pipe ≤ length s.shared.results)
  pop_never_fails r =
      let inv = Reach-Inv some_worker r in
      ((λ e. ground (arith, inv.sound, e)), omega (arith, inv.bytes))
