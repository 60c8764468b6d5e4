-- ===== src/Replication.antt =====
-- Replication: the messages that `BackendSync::Client` of ssdb/src/backend_sync.cpp sends go, in order and
-- whole, to `Slave::proc` of ssdb/src/slave.cpp. The master takes no writes meanwhile.
pub mod Apply
pub mod CatchUp
pub mod Converge
pub mod Follow
pub mod Wire
pub mod Copy
pub mod Bootstrap
use model_lib.Prelude.{ℕ, zero, suc, List, [], ◌∷◌}
use model_lib.Store.LevelDb.{LevelDb}
use model_lib.Store.Cursor.{Cursors}
use model_lib.Store.Queue.{Queue}
use model_lib.BackendSync.{Client, Message, Outcome, returned, broken, out_of_fuel, sync, round}
use model_lib.Slave
use model_lib.Slave.{Slave}

-- `Slave::onRead` hands over one request after the other.
unfoldable pub deliver : {M : LevelDb} → Slave M → List Message → Slave M
deliver s [] = s
deliver s (m ∷ ms) = deliver (Slave.proc s m) ms

module _ {L M : LevelDb} (C : Cursors L) (fuel : ℕ) (q : Queue L) where
  abbrev pub answered : Client L → Slave M → Outcome L → Client L × Slave M
  answered c s (returned ret c' sent) = (c', deliver s sent)
  answered c s broken = (c, s)
  answered c s out_of_fuel = (c, s)

  -- `n` calls of `sync` on the store `q`, each with enough fuel for one record or more.
  unfoldable pub rounds : ℕ → Client L → Slave M → Client L × Slave M
  rounds zero c s = (c, s)
  rounds (suc n) c s =
      let next = answered c s (sync C (suc fuel) (λ i. q) c) in rounds n next.0 next.1

  -- `n` rounds of the client's thread on the store `q`, which reads two records at most in each.
  unfoldable pub thread : ℕ → Client L → Slave M → Client L × Slave M
  thread zero c s = (c, s)
  thread (suc n) c s =
      let next = answered c s (round C (suc (suc fuel)) (λ i. q) q c) in thread n next.0 next.1
