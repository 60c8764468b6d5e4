-- ===== src/Util/Thread/Progress.antt =====
-- A worker pool with a job that is not popped goes on.
mod Moves
use model_lib.Prelude.{
  ℕ, ◌+◌, ◌≤◌, ◌<◌, ◌≡◌, ◌⊎◌, refl, ap, ◌∙◌, inl, inr, Bool, true, false, List, [], ◌∷◌, arith,
  length, length-append,
}
use native.Mathlib.Decide.{dec_lt}
use model_lib.Util.Thread.Family.{
  sum, sum-positive, sum-missing, sum-full, sum-zero, sum-le, weight-le_sum,
}
use model_lib.Util.Thread.State.{
  Shared, Pc, idle, testing, waiting, woken, took, working, storing, adding, added, wrote, Caller,
  free, push_begun, push_locked, push_added, push_unlocked, pop_read, pop_locked, pop_not_empty,
  pop_fronted, pop_taken, pop_failed,
}
use model_lib.Util.Thread.Weights.{
  holds_jobs, holds_results, sleeps, unwritten, carries, count, in_hand,
}
use model_lib.Util.Thread.Queue
use model_lib.Util.Thread.SelectableQueue
use model_lib.Util.Thread.WorkerPool.{
  System, Move, pop, proc, push, Work, move, call, signal, signal_none,
}
use model_lib.Util.Thread.Invariant.{Inv, count-append, sleeps-le}
use model_lib.Util.Thread.Progress.Moves.{CanMove, holder_moves, writer_moves, worker_moves}

module _ {T : Type 0} where
  count_all : (xs : List T) → count (λ x. true) xs ≡ length xs
  count_all [] = refl
  count_all (x ∷ xs) = omega (arith, count_all xs)

  is_waiting : (p : Pc T) → 0 < sleeps p → p ≡ waiting
  is_waiting p h = ground arith

  -- Every job that was pushed is popped.
  abbrev pub IsDone : System T → Type 0
  IsDone s =
      (s.caller ≡ free) × ((p : T → Bool) → count p s.shared.popped ≡ count p s.shared.pushed)

  abbrev pub GoesOn : ℕ → ℕ → System T → Type 0
  GoesOn n room s = (t : System T) × Work n room s t

  -- The jobs that are under way fit the pipe.
  abbrev pub Fits : ℕ → System T → Type 0
  Fits room s = length s.shared.pushed + carries s.caller ≤ length s.shared.popped + room

  abbrev system : Shared T → (ℕ → Pc T) → Caller T → System T
  system m ws c = record { shared = m; workers = ws; caller = c }

  goes_on :
      {n room : ℕ} (m : Shared T) (ws : ℕ → Pc T) (c : Caller T) (i : ℕ)
      → i < n
      → CanMove room m (ws i)
      → GoesOn n room (system m ws c)
  goes_on m ws c i lt (m', p', mv) = (_, move i lt mv)

  signal-GoesOn :
      (n room : ℕ) (m : Shared T) (ws : ℕ → Pc T) → GoesOn n room (system m ws push_unlocked)
  signal-GoesOn n room m ws = elim (dec_lt 0 (sum sleeps ws n)) [
    | yes h ↦
        let (i, lt, w) = sum-positive sleeps ws n h in (_, signal i lt (is_waiting (ws i) w) refl)
    | no h ↦
        (_, signal_none (λ i lt e. absurd (ground (arith, weight-le_sum sleeps ws n i lt, e))) refl)
  ]

  length-zero : (xs : List T) → length xs ≡ 0 → xs ≡ []
  length-zero [] h = refl
  length-zero (x ∷ xs) h = absurd (omega arith)

  -- Workers that all wait weigh nothing but their sleep.
  asleep :
      (ws : ℕ → Pc T) (n : ℕ) (weight : Pc T → ℕ)
      → weight waiting ≡ 0
      → sum sleeps ws n ≡ n
      → sum weight ws n ≡ 0
  asleep ws n weight h all = sum-zero weight ws n (λ i lt.
      let w = sum-full sleeps ws n i (λ j. sleeps-le (ws j)) all lt in
      ap weight (is_waiting (ws i) (omega arith)) ∙ h)

  -- Nothing is under way where the pipe is empty, all workers wait, and no job is in the queue.
  at_rest :
      (n : ℕ) (m : Shared T) (ws : ℕ → Pc T)
      → Inv n m ws free
      → m.pipe ≡ 0
      → sum sleeps ws n ≡ n
      → m.jobs ≡ []
      → IsDone (system m ws free)
  at_rest n m ws inv empty all jobs =
      let results =
        length-zero m.results (omega (arith, inv.bytes, asleep ws n unwritten refl all)) in
      (
        refl,
        λ p. omega (
          arith,
          inv.kept p,
          asleep ws n (in_hand p) refl all,
          ap (count p) inv.order_in,
          ap (count p) inv.order_out,
          ap (count p) results,
          ap (count p) jobs,
          count-append p m.taken m.jobs,
          count-append p m.popped m.results,
        ),
      )

  module _ {n room : ℕ} (m : Shared T) (ws : ℕ → Pc T) where
    -- The results that are not popped fit the pipe, with the byte that a worker is about to write.
    room_left :
        (c : Caller T)
        → Inv n m ws c
        → Fits room (system m ws c)
        → (i : ℕ) → i < n
        → m.pipe + unwritten (ws i) ≤ room
    room_left c inv fits i lt = omega (
      arith,
      inv.bytes,
      weight-le_sum unwritten ws n i lt,
      inv.kept (λ x. true),
      count_all m.taken,
      count_all m.finished,
      ap length inv.order_in,
      ap length inv.order_out,
      length-append m.taken m.jobs,
      length-append m.popped m.results,
    )

    fetch-GoesOn :
        (xs : List T)
        → Inv n m ws pop_locked
        → m.results ≡ xs
        → GoesOn n room (system m ws pop_locked)
    fetch-GoesOn [] inv h = absurd (ground (arith, inv.bytes, h))
    fetch-GoesOn (x ∷ xs) inv h = (_, call (pop (SelectableQueue.Pop.enter h)))

    free-GoesOn :
        Inv n m ws free
        → Fits room (system m ws free)
        → m.jobs_locked ≡ false
        → m.results_locked ≡ false
        → GoesOn n room (system m ws free) ⊎ IsDone (system m ws free)
    free-GoesOn inv fits j r = elim (dec_lt 0 m.pipe) [
      | yes h ↦ inl (_, call (pop (SelectableQueue.Pop.read h)))
      | no empty ↦ elim (dec_lt (sum sleeps ws n) n) [
        | yes h ↦
            let (i, lt, w) = sum-missing sleeps ws n (λ j. sleeps-le (ws j)) h in
            inl (
              goes_on m ws free i lt (
                worker_moves room m (ws i) w j r (room_left free inv fits i lt)
                  (inv.jobs_seen i lt)))
        | no h ↦ inr (
            at_rest n m ws inv (omega arith)
              (omega (arith, sum-le sleeps ws n (λ j. sleeps-le (ws j))))
              (ground (arith, inv.awake)))
      ]
    ]

    -- The caller goes on, or the pool is done, where no worker holds a lock.
    caller-GoesOn :
        (c : Caller T)
        → 0 < n
        → Inv n m ws c
        → Fits room (system m ws c)
        → sum holds_jobs ws n ≡ 0
        → sum holds_results ws n ≡ 0
        → GoesOn n room (system m ws c) ⊎ IsDone (system m ws c)
    caller-GoesOn free some_worker inv fits j r =
        free-GoesOn inv fits (ground (arith, inv.jobs_held, j))
          (ground (arith, inv.results_held, r))
    caller-GoesOn (push_begun x) some_worker inv fits j r =
        inl (_, call (push (Queue.Push.lock (ground (arith, inv.jobs_held, j)))))
    caller-GoesOn (push_locked x) some_worker inv fits j r = inl (_, call (push Queue.Push.add))
    caller-GoesOn push_added some_worker inv fits j r = inl (_, call (push Queue.Push.unlock))
    caller-GoesOn push_unlocked some_worker inv fits j r = inl (signal-GoesOn n room m ws)
    caller-GoesOn pop_read some_worker inv fits j r =
        inl (_, call (pop (SelectableQueue.Pop.lock (ground (arith, inv.results_held, r)))))
    caller-GoesOn pop_locked some_worker inv fits j r = inl (fetch-GoesOn m.results inv refl)
    caller-GoesOn pop_not_empty some_worker inv fits j r =
        let (x, rest, e) = inv.results_seen in inl (_, call (pop (SelectableQueue.Pop.front e)))
    caller-GoesOn (pop_fronted x) some_worker inv fits j r =
        let (rest, e) = inv.results_seen in inl (_, call (pop (SelectableQueue.Pop.remove e)))
    caller-GoesOn (pop_taken x) some_worker inv fits j r =
        inl (_, call (pop SelectableQueue.Pop.unlock))
    caller-GoesOn pop_failed some_worker inv fits j r = absurd (ground (arith, inv.sound))

    -- A pool whose jobs fit the pipe goes on until every job is popped.
    pub GoesOn-or_IsDone :
        (c : Caller T)
        → 0 < n
        → Inv n m ws c
        → Fits room (system m ws c)
        → GoesOn n room (system m ws c) ⊎ IsDone (system m ws c)
    GoesOn-or_IsDone c some_worker inv fits = elim (dec_lt 0 (sum holds_jobs ws n)) [
      | yes h ↦
          let (i, lt, w) = sum-positive holds_jobs ws n h in
          inl (goes_on m ws c i lt (holder_moves room m (ws i) w (inv.jobs_seen i lt)))
      | no j ↦ elim (dec_lt 0 (sum holds_results ws n)) [
        | yes h ↦
            let (i, lt, w) = sum-positive holds_results ws n h in
            inl (goes_on m ws c i lt (writer_moves room m (ws i) w (room_left c inv fits i lt)))
        | no r ↦ caller-GoesOn c some_worker inv fits (omega arith) (omega arith)
      ]
    ]
