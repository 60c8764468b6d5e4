-- ===== src/Util/Thread/Invariant/Seen.antt =====
-- What a thread has seen of the front of a queue of ssdb/src/util/thread.h, between its test and its removal.
use model_lib.Prelude.{ℕ, ◌≡◌, ap, List, [], ◌∷◌, ◌++◌, arith}
use model_lib.Util.Thread.State.{Shared, Pc, not_empty, fronted, Caller, pop_not_empty, pop_fronted}
use model_lib.Util.Thread.Weights.{holds_jobs, Ready, CallerReady}
use model_lib.Util.Thread.Queue
use model_lib.Util.Thread.SelectableQueue
use model_lib.Util.Thread.WorkerPool.{Move, pop, proc, push, Call}

module _ {T : Type 0} where
  -- What was seen of the front holds on when something is pushed behind it.
  pub Ready-append : (jobs ys : List T) (p : Pc T) → Ready jobs p → Ready (jobs ++ ys) p
  Ready-append jobs ys not_empty (x, rest, e) = (x, rest ++ ys, ap (λ l. l ++ ys) e)
  Ready-append jobs ys (fronted x) (rest, e) = (rest ++ ys, ap (λ l. l ++ ys) e)
  Ready-append jobs ys _ r = tt

  pub CallerReady-append :
      (results ys : List T) (c : Caller T) → CallerReady results c → CallerReady (results ++ ys) c
  CallerReady-append results ys pop_not_empty (x, rest, e) = (x, rest ++ ys, ap (λ l. l ++ ys) e)
  CallerReady-append results ys (pop_fronted x) (rest, e) = (rest ++ ys, ap (λ l. l ++ ys) e)
  CallerReady-append results ys _ r = tt

  -- A worker without the lock has seen nothing.
  pub Ready-outside : (jobs : List T) (p : Pc T) → holds_jobs p ≡ 0 → Ready jobs p
  Ready-outside jobs not_empty h = absurd (omega (arith, h))
  Ready-outside jobs (fronted x) h = absurd (omega (arith, h))
  Ready-outside jobs _ h = tt

  -- The item that is removed is the one that was copied.
  pub front_kept :
      (xs rest rest' : List T) (x y : T) → xs ≡ x ∷ rest' → xs ≡ y ∷ rest → xs ≡ x ∷ rest
  front_kept xs rest rest' x y e h = cc (e, h)

  -- A worker that moves has seen what it has seen.
  pub Move-own : {room : ℕ} {m m' : Shared T} {p p' : Pc T} → Move room m p m' p' → Ready m'.jobs p'
  Move-own (pop (Queue.Pop.leave {x} {rest} h)) = (x, rest, h)
  Move-own (pop (Queue.Pop.front {x} {rest} h)) = (rest, h)
  Move-own (pop (Queue.Pop.remove h)) = tt
  Move-own (pop (Queue.Pop.lock h)) = tt
  Move-own (pop (Queue.Pop.wait h)) = tt
  Move-own (pop (Queue.Pop.relock h)) = tt
  Move-own (pop Queue.Pop.unlock) = tt
  Move-own proc = tt
  Move-own (push (SelectableQueue.Push.lock h)) = tt
  Move-own (push SelectableQueue.Push.add) = tt
  Move-own (push (SelectableQueue.Push.write h)) = tt
  Move-own (push SelectableQueue.Push.unlock) = tt

  -- What the caller has seen of the results holds on when a worker moves.
  pub Move-results :
      {room : ℕ} {m m' : Shared T} {p p' : Pc T} (c : Caller T)
      → Move room m p m' p'
      → CallerReady m.results c
      → CallerReady m'.results c
  Move-results {m} c (push (SelectableQueue.Push.add {x})) r =
      CallerReady-append m.results (x ∷ []) c r
  Move-results c (pop (Queue.Pop.remove h)) r = r
  Move-results c (pop (Queue.Pop.leave h)) r = r
  Move-results c (pop (Queue.Pop.front h)) r = r
  Move-results c (pop (Queue.Pop.lock h)) r = r
  Move-results c (pop (Queue.Pop.wait h)) r = r
  Move-results c (pop (Queue.Pop.relock h)) r = r
  Move-results c (pop Queue.Pop.unlock) r = r
  Move-results c proc r = r
  Move-results c (push (SelectableQueue.Push.lock h)) r = r
  Move-results c (push (SelectableQueue.Push.write h)) r = r
  Move-results c (push SelectableQueue.Push.unlock) r = r

  -- So does what it sees itself.
  pub Call-own : {m m' : Shared T} {c c' : Caller T} → Call m c m' c' → CallerReady m'.results c'
  Call-own (pop (SelectableQueue.Pop.enter {x} {rest} h)) = (x, rest, h)
  Call-own (pop (SelectableQueue.Pop.front {x} {rest} h)) = (rest, h)
  Call-own (pop (SelectableQueue.Pop.remove h)) = tt
  Call-own (push (Queue.Push.lock h)) = tt
  Call-own (push Queue.Push.add) = tt
  Call-own (push Queue.Push.unlock) = tt
  Call-own (pop (SelectableQueue.Pop.read h)) = tt
  Call-own (pop (SelectableQueue.Pop.lock h)) = tt
  Call-own (pop (SelectableQueue.Pop.fail h)) = tt
  Call-own (pop SelectableQueue.Pop.unlock) = tt

  -- The caller adds jobs behind what the workers have seen.
  pub Call-jobs :
      {m m' : Shared T} {c c' : Caller T} (p : Pc T)
      → Call m c m' c'
      → Ready m.jobs p
      → Ready m'.jobs p
  Call-jobs {m} p (push (Queue.Push.add {x})) r = Ready-append m.jobs (x ∷ []) p r
  Call-jobs p (push (Queue.Push.lock h)) r = r
  Call-jobs p (push Queue.Push.unlock) r = r
  Call-jobs p (pop (SelectableQueue.Pop.read h)) r = r
  Call-jobs p (pop (SelectableQueue.Pop.lock h)) r = r
  Call-jobs p (pop (SelectableQueue.Pop.fail h)) r = r
  Call-jobs p (pop (SelectableQueue.Pop.enter h)) r = r
  Call-jobs p (pop (SelectableQueue.Pop.front h)) r = r
  Call-jobs p (pop (SelectableQueue.Pop.remove h)) r = r
  Call-jobs p (pop SelectableQueue.Pop.unlock) r = r
