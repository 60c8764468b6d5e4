-- ===== src/Util/Thread/FullPipe/Fill.antt =====
-- Runs of a worker pool that fill its pipe.
use model_lib.Prelude.{
  ℕ, zero, suc, ◌+◌, ◌≤◌, ◌<◌, ◌≡◌, refl, sym, subst, fun_ext, true, false, List, [], ◌∷◌, ◌++◌,
  arith, length, length-append,
}
use model_lib.Util.Thread.Family.{put_at}
use model_lib.Util.Thread.State.{Shared, Pc, idle, added, Caller, free}
use model_lib.Util.Thread.Queue
use model_lib.Util.Thread.SelectableQueue
use model_lib.Util.Thread.WorkerPool.{
  System, Move, pop, proc, push, move, call, signal_none, work, begin_push, Reach, begin, later,
}

module _ {T : Type 0} where
  abbrev pub system : Shared T → (ℕ → Pc T) → Caller T → System T
  system m ws c = record { shared = m; workers = ws; caller = c }

  -- The worker `i` stands at `p`, and all others at the head of their loop.
  abbrev pub only : ℕ → Pc T → ℕ → Pc T
  only i p = put_at i p (λ j. idle)

  only_idle : (i : ℕ) → only i idle ≡ (λ j. idle)
  only_idle i = fun_ext (λ j. ground arith)

  put_at-same : (i : ℕ) (p : Pc T) (ws : ℕ → Pc T) → p ≡ put_at i p ws i
  put_at-same i p ws = ground arith

  put_at-again :
      (i : ℕ) (p p' : Pc T) (ws : ℕ → Pc T) → put_at i p' (put_at i p ws) ≡ put_at i p' ws
  put_at-again i p p' ws = fun_ext (λ j. ground arith)

  module _ {n room : ℕ} where
    moved :
        {m m' : Shared T} {c : Caller T} {p p' : Pc T} (i : ℕ) (ws : ℕ → Pc T)
        → i < n
        → Reach n room (system m (put_at i p ws) c)
        → Move room m p m' p'
        → Reach n room (system m' (put_at i p' ws) c)
    moved {m} {m'} {c} {p} {p'} i ws lt r mv =
        subst (λ f. Reach n room (system m' f c)) (put_at-again i p p' ws)
          (later r (work (move i lt (subst (λ q. Move room m q m' p') (put_at-same i p ws) mv))))

    -- `push` of the caller, where no worker waits.
    pub pushed :
        (m : Shared T) (x : T)
        → m.jobs_locked ≡ false
        → Reach n room (system m (λ j. idle) free)
        → Reach n room (
            system
              (record m {
                jobs_locked = false;
                jobs = m.jobs ++ x ∷ [];
                pushed = m.pushed ++ x ∷ [];
              })
              (λ j. idle)
              free)
    pushed m x h r =
        later
          (later
            (later (later (later r (begin_push x refl)) (work (call (push (Queue.Push.lock h)))))
              (work (call (push Queue.Push.add))))
            (work (call (push Queue.Push.unlock))))
          (work (signal_none (λ i lt e. cc e) refl))

    -- A worker takes the first job, handles it and adds it to the results.
    pub handled :
        (m : Shared T) (c : Caller T) (i : ℕ) (x : T) (rest : List T)
        → i < n
        → m.jobs ≡ x ∷ rest
        → m.jobs_locked ≡ false
        → m.results_locked ≡ false
        → Reach n room (system m (λ j. idle) c)
        → Reach n room (
            system
              (record m {
                jobs_locked = false;
                jobs = rest;
                taken = m.taken ++ x ∷ [];
                results_locked = true;
                results = m.results ++ x ∷ [];
                finished = m.finished ++ x ∷ [];
              })
              (only i added)
              c)
    handled m c i x rest lt h j r reached =
        let start = subst (λ f. Reach n room (system m f c)) (sym (only_idle i)) reached in
        let locked = moved i (λ j. idle) lt start (pop (Queue.Pop.lock j)) in
        let inside = moved i (λ j. idle) lt locked (pop (Queue.Pop.leave h)) in
        let copied = moved i (λ j. idle) lt inside (pop (Queue.Pop.front h)) in
        let held = moved i (λ j. idle) lt copied (pop (Queue.Pop.remove h)) in
        let has = moved i (λ j. idle) lt held (pop Queue.Pop.unlock) in
        let ready = moved i (λ j. idle) lt has proc in
        let entered = moved i (λ j. idle) lt ready (push (SelectableQueue.Push.lock r)) in
        moved i (λ j. idle) lt entered (push SelectableQueue.Push.add)

    -- The worker writes its byte and is at the head of its loop again.
    pub written :
        (m : Shared T) (c : Caller T) (i : ℕ)
        → i < n
        → m.pipe < room
        → Reach n room (system m (only i added) c)
        → Reach n room
            (system (record m { pipe = m.pipe + 1; results_locked = false }) (λ j. idle) c)
    written m c i lt h reached =
        let free = moved i (λ j. idle) lt reached (push (SelectableQueue.Push.write h)) in
        let idle = moved i (λ j. idle) lt free (push SelectableQueue.Push.unlock) in
        subst
          (λ f. Reach n room (system (record m { pipe = m.pipe + 1; results_locked = false }) f c))
          (only_idle i) idle

  -- `k` jobs that are finished and not popped.
  abbrev pub copies : T → ℕ → List T
  copies x zero = []
  copies x (suc k) = copies x k ++ x ∷ []

  abbrev pub unpopped : T → ℕ → ℕ → Shared T
  unpopped x k pipe = record {
    jobs = [];
    jobs_locked = false;
    results = copies x k;
    results_locked = false;
    pipe = pipe;
    pushed = copies x k;
    taken = copies x k;
    finished = copies x k;
    popped = [];
  }

  pub length-copies : (x : T) (k : ℕ) → length (copies x k) ≡ k
  length-copies x zero = refl
  length-copies x (suc k) = omega (arith, length-append (copies x k) (x ∷ []), length-copies x k)

  module _ {n room : ℕ} where
    -- The caller pushes `k` jobs and pops none.
    pub fill :
        (x : T) (k : ℕ) → 0 < n → k ≤ room → Reach n room (system (unpopped x k k) (λ j. idle) free)
    fill x zero lt h = begin
    fill x (suc k) lt h =
        let more = pushed (unpopped x k k) x refl (fill x k lt (omega arith)) in
        let done = handled _ free 0 x [] lt refl refl refl more in
        let e : k + 1 ≡ suc k = omega arith in
        subst (λ b. Reach n room (system (unpopped x (suc k) b) (λ j. idle) free)) e
          (written _ free 0 lt (omega arith) done)
