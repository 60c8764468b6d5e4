-- ===== src/Net.antt =====
-- ssdb/src/net: the Redis protocol, replies, commands and links.
pub mod Redis
pub mod Resp
pub mod ProcMap
pub mod Link
pub mod Packet
pub mod Receive
