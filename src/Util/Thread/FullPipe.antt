-- ===== src/Util/Thread/FullPipe.antt =====
-- What happens to a worker pool whose pipe is full: `SelectableQueue::push` writes with the lock held,
-- and `SelectableQueue::pop` takes the lock after it has read.
pub mod Stuck
mod Fill
use model_lib.Prelude.{
  ℕ, zero, suc, ◌+◌, ◌≤◌, ◌<◌, ◌≡◌, ◌≢◌, ◌⊎◌, refl, sym, ap, ◌∙◌, subst, fun_ext, inl, inr, true,
  false, List, [], ◌∷◌, ◌++◌, arith, length, length-append,
}
use native.Mathlib.Decide.{ℕ_discrete}
use model_lib.Util.Thread.Family.{put_at}
use model_lib.Util.Thread.State.{Shared, Pc, idle, added, Caller, free, pop_read}
use model_lib.Util.Thread.Weights.{holds_results}
use model_lib.Util.Thread.Queue
use model_lib.Util.Thread.SelectableQueue
use model_lib.Util.Thread.WorkerPool.{
  System, Move, pop, proc, push, Call, move, call, signal, signal_none, Step, work, begin_push,
  wake, Reach, begin, later,
}
use model_lib.Util.Thread.FullPipe.Stuck.{After, here, then, IsStuck, After-IsStuck}
use model_lib.Util.Thread.FullPipe.Fill.{
  system, only, copies, unpopped, length-copies, pushed, handled, written, fill,
}

module _ {T : Type 0} where
  module _ {n room : ℕ} where
    -- It pushes two jobs more and pops one: the pipe is full again, and a worker has the lock.
    stuck :
        (x : T)
        → 1 < n
        → 0 < room
        → (s : System T) × Reach n room s × IsStuck room s × (length s.shared.pushed ≡ room + 2)
    stuck x some_workers some_room =
        let m = unpopped x room room in
        let one = pushed m x refl (fill x room (omega arith) (omega arith)) in
        let two = pushed _ x refl one in
        let first = handled _ free 0 x (x ∷ []) (omega arith) refl refl refl two in
        let reads = later first (work (call (pop (SelectableQueue.Pop.read some_room)))) in
        let wrote = written _ pop_read 0 (omega arith) (omega arith) reads in
        let second = handled _ pop_read 1 x [] some_workers refl refl refl wrote in
        (
          _,
          second,
          record {
            caller = refl;
            locked = refl;
            full = omega arith;
            none_popped = refl;
            writer = ground arith;
            others = λ j ne. ground arith;
          },
          omega (
            arith,
            length-append (copies x room ++ x ∷ []) (x ∷ []),
            length-append (copies x room) (x ∷ []),
            length-copies x room,
          ),
        )

    -- A pool with two workers or more can reach a state from which its caller never gets on, whatever the
    -- capacity of the pipe, once two jobs more than the pipe has room for are under way: in every state
    -- that comes later the caller stands in `pop`, before the lock, and has popped nothing.
    pub full_pipe_stops :
        (x : T)
        → 1 < n
        → 0 < room
        → (s : System T) × Reach n room s
          × (length s.shared.pushed ≡ room + 2)
          × ((t : System T) → After n room s t → (t.caller ≡ pop_read) × (t.shared.popped ≡ []))
    full_pipe_stops x some_workers some_room =
        let (s, r, st, e) = stuck x some_workers some_room in
        (
          s,
          r,
          e,
          λ t a. let later_on = After-IsStuck a st in (later_on.caller, later_on.none_popped),
        )
