-- ===== src/Tests.antt =====
-- The headline theorems at concrete inputs, and runs of the definitions.
mod Util
mod Redis
mod Store
mod Replication
mod Bootstrap
mod Serv
mod Buffer
mod Wire
mod Thread
mod Config
mod Logger
