-- ===== src/Util/Thread/SelectableQueue.antt =====
-- `SelectableQueue<T>` of ssdb/src/util/thread.h: `push` by a worker, `pop` by the caller, a statement at
-- a time. `room` is how many bytes the pipe takes before a write to it blocks.
use model_lib.Prelude.{ℕ, ◌+◌, ◌-◌, ◌<◌, ◌≡◌, true, false, List, [], ◌∷◌, ◌++◌}
use model_lib.Util.Thread.State.{
  Shared, Pc, idle, storing, adding, added, wrote, Caller, free, pop_read, pop_locked,
  pop_not_empty, pop_fronted, pop_taken, pop_failed,
}

module _ {T : Type 0} where
  pub data Push (room : ℕ) (m : Shared T) : Pc T → Shared T → Pc T → Type 0 where
    lock :
        {x : T}
        → m.results_locked ≡ false
        → Push room m (storing x) (record m { results_locked = true }) (adding x)
    add :
        {x : T}
        → Push room m
            (adding x)
            (record m { results = m.results ++ x ∷ []; finished = m.finished ++ x ∷ [] })
            added
    write : m.pipe < room → Push room m added (record m { pipe = m.pipe + 1 }) wrote
    unlock : Push room m wrote (record m { results_locked = false }) idle

  -- `pop`: a read blocks until there is a byte, and the error is a byte with no item.
  pub data Pop (m : Shared T) : Caller T → Shared T → Caller T → Type 0 where
    read : 0 < m.pipe → Pop m free (record m { pipe = m.pipe - 1 }) pop_read
    lock : m.results_locked ≡ false → Pop m pop_read (record m { results_locked = true }) pop_locked
    fail : m.results ≡ [] → Pop m pop_locked (record m { results_locked = false }) pop_failed
    enter : {x : T} {rest : List T} → m.results ≡ x ∷ rest → Pop m pop_locked m pop_not_empty
    front : {x : T} {rest : List T} → m.results ≡ x ∷ rest → Pop m pop_not_empty m (pop_fronted x)
    remove :
        {x y : T} {rest : List T}
        → m.results ≡ y ∷ rest
        → Pop m
            (pop_fronted x)
            (record m { results = rest; popped = m.popped ++ x ∷ [] })
            (pop_taken x)
    unlock : {x : T} → Pop m (pop_taken x) (record m { results_locked = false }) free
