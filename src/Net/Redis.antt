-- ===== src/Net/Redis.antt =====
-- ssdb/src/net/link_redis.cpp: `RedisLink`.
pub mod Parse
pub mod Table
pub mod Convert
pub mod Reply
