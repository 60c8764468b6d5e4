-- ===== src/Util/Thread/FullPipe/Stuck.antt =====
-- A worker pool that cannot go on: its caller wants a lock whose owner waits for the caller.
use model_lib.Prelude.{ℕ, ◌≡◌, ◌≢◌, ◌⊎◌, ap, ◌∙◌, inl, inr, true, [], arith}
use native.Mathlib.Decide.{ℕ_discrete}
use model_lib.Util.Thread.State.{Shared, Pc, added, Caller, pop_read}
use model_lib.Util.Thread.Weights.{holds_results}
use model_lib.Util.Thread.Queue
use model_lib.Util.Thread.SelectableQueue
use model_lib.Util.Thread.WorkerPool.{
  System, Move, pop, proc, push, Call, move, call, signal, signal_none, Step, work, begin_push,
  wake,
}

-- The states that come after `s`.
pub data After {T : Type 0} (n room : ℕ) (s : System T) : System T → Type 0 where
  here : After n room s s
  then : {t u : System T} → After n room s t → Step n room t u → After n room s u

module _ {T : Type 0} where
  -- The caller wants the lock of worker 1, which waits for room in the pipe.
  pub record IsStuck (room : ℕ) (s : System T) : Type 0 where
    pub caller : s.caller ≡ pop_read
    pub locked : s.shared.results_locked ≡ true
    pub full : s.shared.pipe ≡ room
    pub writer : s.workers 1 ≡ added
    pub none_popped : s.shared.popped ≡ []
    pub others : (j : ℕ) → j ≢ 1 → holds_results (s.workers j) ≡ 0

  -- No move of a worker changes this: worker 1 cannot write, and no other gets the lock.
  Move-IsStuck :
      {room : ℕ} {m m' : Shared T} {p p' : Pc T}
      → Move room m p m' p'
      → m.results_locked ≡ true
      → m.pipe ≡ room
      → (p ≡ added) ⊎ (holds_results p ≡ 0)
      → (holds_results p ≡ 0)
        × (m'.results_locked ≡ true)
        × (m'.pipe ≡ room)
        × (holds_results p' ≡ 0)
        × (m'.popped ≡ m.popped)
  Move-IsStuck (pop (Queue.Pop.lock h)) l f e = ground arith
  Move-IsStuck (pop (Queue.Pop.wait h)) l f e = ground arith
  Move-IsStuck (pop (Queue.Pop.relock h)) l f e = ground arith
  Move-IsStuck (pop (Queue.Pop.leave h)) l f e = ground arith
  Move-IsStuck (pop (Queue.Pop.front h)) l f e = ground arith
  Move-IsStuck (pop (Queue.Pop.remove h)) l f e = ground arith
  Move-IsStuck (pop Queue.Pop.unlock) l f e = ground arith
  Move-IsStuck proc l f e = ground arith
  Move-IsStuck (push (SelectableQueue.Push.lock h)) l f e = ground arith
  Move-IsStuck (push SelectableQueue.Push.add) l f e = ground arith
  Move-IsStuck (push (SelectableQueue.Push.write h)) l f e = ground arith
  Move-IsStuck (push SelectableQueue.Push.unlock) l f e = ground arith

  Call-IsStuck :
      {m m' : Shared T} {c c' : Caller T}
      → Call m c m' c'
      → c ≡ pop_read
      → ¬ (m.results_locked ≡ true)
  Call-IsStuck (push (Queue.Push.lock h)) e l = ground (arith, e, l)
  Call-IsStuck (push Queue.Push.add) e l = ground (arith, e, l)
  Call-IsStuck (push Queue.Push.unlock) e l = ground (arith, e, l)
  Call-IsStuck (pop (SelectableQueue.Pop.read h)) e l = ground (arith, e, l)
  Call-IsStuck (pop (SelectableQueue.Pop.lock h)) e l = ground (arith, e, l)
  Call-IsStuck (pop (SelectableQueue.Pop.fail h)) e l = ground (arith, e, l)
  Call-IsStuck (pop (SelectableQueue.Pop.enter h)) e l = ground (arith, e, l)
  Call-IsStuck (pop (SelectableQueue.Pop.front h)) e l = ground (arith, e, l)
  Call-IsStuck (pop (SelectableQueue.Pop.remove h)) e l = ground (arith, e, l)
  Call-IsStuck (pop SelectableQueue.Pop.unlock) e l = ground (arith, e, l)

  adds_or_rests :
      {room : ℕ} {s : System T}
      → IsStuck room s
      → (i : ℕ) → (s.workers i ≡ added) ⊎ (holds_results (s.workers i) ≡ 0)
  adds_or_rests {s} st i = elim (ℕ_discrete i 1) [
    | yes e ↦ inl (ap s.workers e ∙ st.writer)
    | no ne ↦ inr (st.others i ne)
  ]

  module _ {n room : ℕ} where
    Step-IsStuck : {s t : System T} → Step n room s t → IsStuck room s → IsStuck room t
    Step-IsStuck {s} (work (move i {p} lt mv)) st =
        let (h, l, f, h', same) = Move-IsStuck mv st.locked st.full (adds_or_rests st i) in
        let ne : i ≢ 1 = λ e. ground (arith, ap holds_results (ap s.workers e ∙ st.writer), h) in
        record {
          caller = st.caller;
          locked = l;
          full = f;
          none_popped = same ∙ st.none_popped;
          writer = ground (arith, ne, st.writer);
          others = λ j d. ground (arith, h', st.others j d);
        }
    Step-IsStuck (work (call k)) st = absurd (Call-IsStuck k st.caller st.locked)
    Step-IsStuck (work (signal i lt e c)) st = absurd (ground (arith, st.caller, c))
    Step-IsStuck (work (signal_none h c)) st = absurd (ground (arith, st.caller, c))
    Step-IsStuck (begin_push x c) st = absurd (ground (arith, st.caller, c))
    Step-IsStuck {s} (wake i lt e) st = record {
      caller = st.caller;
      locked = st.locked;
      full = st.full;
      none_popped = st.none_popped;
      writer = ground (arith, e, st.writer);
      others = λ j ne. ground (arith, e, st.others j ne);
    }

    pub After-IsStuck : {s t : System T} → After n room s t → IsStuck room s → IsStuck room t
    After-IsStuck here st = st
    After-IsStuck (then a step) st = Step-IsStuck step (After-IsStuck a st)
