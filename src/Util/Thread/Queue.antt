-- ===== src/Util/Thread/Queue.antt =====
-- `Queue<T>` of ssdb/src/util/thread.h: `push` by the caller, `pop` by a worker, a statement at a time.
use model_lib.Prelude.{◌≡◌, true, false, List, [], ◌∷◌, ◌++◌}
use model_lib.Util.Thread.State.{
  Shared, Pc, idle, testing, waiting, woken, not_empty, fronted, took, working, Caller, push_begun,
  push_locked, push_added, push_unlocked,
}

module _ {T : Type 0} where
  -- `push`, but for its signal, which is a step of the whole system.
  pub data Push (m : Shared T) : Caller T → Shared T → Caller T → Type 0 where
    lock :
        {x : T}
        → m.jobs_locked ≡ false
        → Push m (push_begun x) (record m { jobs_locked = true }) (push_locked x)
    add :
        {x : T}
        → Push m
            (push_locked x)
            (record m { jobs = m.jobs ++ x ∷ []; pushed = m.pushed ++ x ∷ [] })
            push_added
    unlock : Push m push_added (record m { jobs_locked = false }) push_unlocked

  -- `pop`. The wait gives the lock back, and has it again before the test is made again. The test, the copy
  -- of the front and its removal are steps of their own; on an empty queue the last two are undefined.
  pub data Pop (m : Shared T) : Pc T → Shared T → Pc T → Type 0 where
    lock : m.jobs_locked ≡ false → Pop m idle (record m { jobs_locked = true }) testing
    wait : m.jobs ≡ [] → Pop m testing (record m { jobs_locked = false }) waiting
    relock : m.jobs_locked ≡ false → Pop m woken (record m { jobs_locked = true }) testing
    leave : {x : T} {rest : List T} → m.jobs ≡ x ∷ rest → Pop m testing m not_empty
    front : {x : T} {rest : List T} → m.jobs ≡ x ∷ rest → Pop m not_empty m (fronted x)
    remove :
        {x y : T} {rest : List T}
        → m.jobs ≡ y ∷ rest
        → Pop m (fronted x) (record m { jobs = rest; taken = m.taken ++ x ∷ [] }) (took x)
    unlock : {x : T} → Pop m (took x) (record m { jobs_locked = false }) (working x)
