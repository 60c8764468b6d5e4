-- ===== src/Util/Thread.antt =====
-- ssdb/src/util/thread.h: `Queue`, `SelectableQueue` and `WorkerPool`.
pub mod Family
pub mod State
pub mod Weights
pub mod Queue
pub mod SelectableQueue
pub mod WorkerPool
pub mod Invariant
pub mod Safety
pub mod Progress
pub mod Liveness
pub mod FullPipe
