-- ===== src/Util/Thread/Liveness.antt =====
-- How long the threads of a worker pool go on of themselves.
use model_lib.Prelude.{
  ℕ, zero, suc, ◌+◌, ◌*◌, ◌≤◌, ◌<◌, ◌≡◌, ◌⊎◌, refl, ap, inl, inr, [], ◌∷◌, arith, length,
  length-append,
}
use model_lib.Util.Thread.Family.{sum, sum-put_at}
use model_lib.Util.Thread.State.{Shared, Pc, woken, Caller}
use model_lib.Util.Thread.Weights.{steps_left, caller_steps_left, carries}
use model_lib.Util.Thread.Queue
use model_lib.Util.Thread.SelectableQueue
use model_lib.Util.Thread.WorkerPool.{
  System, Move, pop, proc, push, Call, Work, move, call, signal, signal_none, Reach, later, work,
  Run, stay, one_more,
}
use model_lib.Util.Thread.Invariant.Calls.{Reach-Inv}
use model_lib.Util.Thread.Progress.{IsDone, GoesOn, Fits, GoesOn-or_IsDone}

module _ {T : Type 0} where
  abbrev shared_steps_left : Shared T → ℕ
  shared_steps_left m = 16 * length m.jobs + 6 * m.pipe

  -- No more steps than these are left.
  abbrev pub todo : ℕ → System T → ℕ
  todo n s = shared_steps_left s.shared + sum steps_left s.workers n + caller_steps_left s.caller

  Move-todo :
      {room : ℕ} {m m' : Shared T} {p p' : Pc T}
      → Move room m p m' p'
      → shared_steps_left m' + steps_left p' < shared_steps_left m + steps_left p
  Move-todo (pop (Queue.Pop.lock h)) = omega arith
  Move-todo (pop (Queue.Pop.wait h)) = omega arith
  Move-todo (pop (Queue.Pop.relock h)) = omega arith
  Move-todo (pop (Queue.Pop.leave h)) = omega arith
  Move-todo (pop (Queue.Pop.front h)) = omega arith
  Move-todo (pop (Queue.Pop.remove h)) = omega (arith, ap length h)
  Move-todo (pop Queue.Pop.unlock) = omega arith
  Move-todo proc = omega arith
  Move-todo (push (SelectableQueue.Push.lock h)) = omega arith
  Move-todo (push SelectableQueue.Push.add) = omega arith
  Move-todo (push (SelectableQueue.Push.write h)) = omega arith
  Move-todo (push SelectableQueue.Push.unlock) = omega arith

  Call-todo :
      {m m' : Shared T} {c c' : Caller T}
      → Call m c m' c'
      → shared_steps_left m' + caller_steps_left c' < shared_steps_left m + caller_steps_left c
  Call-todo (push (Queue.Push.lock h)) = omega arith
  Call-todo {m} (push (Queue.Push.add {x})) = omega (arith, length-append m.jobs (x ∷ []))
  Call-todo (push Queue.Push.unlock) = omega arith
  Call-todo (pop (SelectableQueue.Pop.read h)) = omega arith
  Call-todo (pop (SelectableQueue.Pop.lock h)) = omega arith
  Call-todo (pop (SelectableQueue.Pop.fail h)) = omega arith
  Call-todo (pop (SelectableQueue.Pop.enter h)) = omega arith
  Call-todo (pop (SelectableQueue.Pop.front h)) = omega arith
  Call-todo (pop (SelectableQueue.Pop.remove h)) = omega arith
  Call-todo (pop SelectableQueue.Pop.unlock) = omega arith

  -- The jobs under way do not become more by a step that no new job begins.
  Move-counts :
      {room : ℕ} {m m' : Shared T} {p p' : Pc T}
      → Move room m p m' p'
      → (m'.pushed ≡ m.pushed) × (m'.popped ≡ m.popped)
  Move-counts (pop (Queue.Pop.lock h)) = (refl, refl)
  Move-counts (pop (Queue.Pop.wait h)) = (refl, refl)
  Move-counts (pop (Queue.Pop.relock h)) = (refl, refl)
  Move-counts (pop (Queue.Pop.leave h)) = (refl, refl)
  Move-counts (pop (Queue.Pop.front h)) = (refl, refl)
  Move-counts (pop (Queue.Pop.remove h)) = (refl, refl)
  Move-counts (pop Queue.Pop.unlock) = (refl, refl)
  Move-counts proc = (refl, refl)
  Move-counts (push (SelectableQueue.Push.lock h)) = (refl, refl)
  Move-counts (push SelectableQueue.Push.add) = (refl, refl)
  Move-counts (push (SelectableQueue.Push.write h)) = (refl, refl)
  Move-counts (push SelectableQueue.Push.unlock) = (refl, refl)

  Call-Fits :
      (room : ℕ) {m m' : Shared T} {c c' : Caller T}
      → Call m c m' c'
      → length m.pushed + carries c ≤ length m.popped + room
      → length m'.pushed + carries c' ≤ length m'.popped + room
  Call-Fits room (push (Queue.Push.lock h)) f = omega arith
  Call-Fits room {m} (push (Queue.Push.add {x})) f = omega (arith, length-append m.pushed (x ∷ []))
  Call-Fits room (push Queue.Push.unlock) f = omega arith
  Call-Fits room (pop (SelectableQueue.Pop.read h)) f = omega arith
  Call-Fits room (pop (SelectableQueue.Pop.lock h)) f = omega arith
  Call-Fits room (pop (SelectableQueue.Pop.fail h)) f = omega arith
  Call-Fits room (pop (SelectableQueue.Pop.enter h)) f = omega arith
  Call-Fits room (pop (SelectableQueue.Pop.front h)) f = omega arith
  Call-Fits room {m} (pop (SelectableQueue.Pop.remove {x} h)) f =
      omega (arith, length-append m.popped (x ∷ []))
  Call-Fits room (pop SelectableQueue.Pop.unlock) f = omega arith

  -- What holds of the end of a run.
  record Runs (n room k : ℕ) (s t : System T) : Type 0 where
    steps : k + todo n t ≤ todo n s
    reached : Reach n room t
    fits : Fits room t

  module _ {n room : ℕ} where
    Work-todo : {s t : System T} → Work n room s t → todo n t < todo n s
    Work-todo {s} (move i {p} lt mv) =
        omega (arith, Move-todo mv, sum-put_at steps_left s.workers i n p lt)
    Work-todo (call k) = omega (arith, Call-todo k)
    Work-todo {s} (signal i lt e c) = omega (
      arith,
      sum-put_at steps_left s.workers i n woken lt,
      ap steps_left e,
      ap caller_steps_left c,
    )
    Work-todo (signal_none h c) = omega (arith, ap caller_steps_left c)

    Work-Fits : {s t : System T} → Work n room s t → Fits room s → Fits room t
    Work-Fits (move i lt mv) f =
        let (a, b) = Move-counts mv in omega (arith, ap length a, ap length b)
    Work-Fits (call k) f = Call-Fits room k f
    Work-Fits (signal i lt e c) f = omega (arith, ap carries c)
    Work-Fits (signal_none h c) f = omega (arith, ap carries c)

    Run-Runs :
        {s : System T} {k : ℕ} {t : System T}
        → Run n room s k t
        → Reach n room s
        → Fits room s
        → Runs n room k s t
    Run-Runs stay r f = record { steps = omega arith; reached = r; fits = f }
    Run-Runs (one_more run w) r f =
        let before = Run-Runs run r f in
        record {
          steps = omega (arith, before.steps, Work-todo w);
          reached = later before.reached (work w);
          fits = Work-Fits w before.fits;
        }

    Run-out :
        (fuel : ℕ) {k : ℕ} {s t : System T}
        → 0 < n
        → Run n room s k t
        → Runs n room k s t
        → todo n t < fuel
        → (j : ℕ) × (u : System T) × Run n room s j u × IsDone u
    Run-out zero some_worker run r h = absurd (omega arith)
    Run-out (suc fuel) {k} {t} some_worker run r h =
        elim (GoesOn-or_IsDone t.shared t.workers t.caller some_worker
          (Reach-Inv some_worker r.reached) r.fits) [
            | inl (u, w) ↦
                Run-out fuel some_worker (one_more run w)
                  (record {
                    steps = omega (arith, r.steps, Work-todo w);
                    reached = later r.reached (work w);
                    fits = Work-Fits w r.fits;
                  })
                  (omega (arith, Work-todo w))
            | inr d ↦ (k, t, run, d)
          ]

    -- Where a pool has a worker and the jobs under way fit the pipe, every job is popped: from each state
    -- that it reaches, the threads take no more steps of themselves than `todo` says, and whichever they
    -- take, they can go on until the caller is free again and has popped every job that was pushed.
    pub all_popped :
        {s : System T}
        → 0 < n
        → Reach n room s
        → Fits room s
        → {k : ℕ} {t : System T} → Run n room s k t
        → (k ≤ todo n s)
          × (GoesOn n room t ⊎ IsDone t)
          × ((j : ℕ) × (u : System T) × Run n room t j u × IsDone u)
    all_popped some_worker reached fits {t} run =
        let r = Run-Runs run reached fits in
        (
          omega (arith, r.steps),
          GoesOn-or_IsDone t.shared t.workers t.caller some_worker (Reach-Inv some_worker r.reached)
              r.fits,
          Run-out (suc (todo n t)) some_worker stay (Run-Runs stay r.reached r.fits) (omega arith),
        )
