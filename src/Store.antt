-- ===== src/Store.antt =====
-- ssdb/src/ssdb: keys, the binary log and the store, over LevelDB.
pub mod Const
pub mod Keys
pub mod LevelDb
pub mod Binlog
pub mod Cursor
pub mod Queue
pub mod Find
pub mod Iterator
pub mod Impl
