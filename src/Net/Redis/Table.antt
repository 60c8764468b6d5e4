-- ===== src/Net/Redis/Table.antt =====
-- The command table of ssdb/src/net/link_redis.cpp: `REPLY`, `STRATEGY`, `cmds_raw` and the map
-- `cmd_table` that the first request fills from it.
use model_lib.Prelude.{Option, none, some, List, [], ◌∷◌, if◌then◌else◌}
use model_lib.Prelude.Text.{ByteString, codes, str_eq}
use mathlib.Core.List.{foldl}

pub data ReplyType : Type 0 where
  bulk multi_bulk int status : ReplyType

pub data Strategy : Type 0 where
  auto ping mget hmget hgetall hkeys hvals setex zrange zrevrange zrangebyscore : Strategy
  zrevrangebyscore zadd zincrby remrangebyrank remrangebyscore null : Strategy

-- `RedisRequestDesc`, and a row of `cmds_raw`.
pub record RequestDesc : Type 0 where
  pub strategy : Strategy
  pub redis_cmd : ByteString
  pub ssdb_cmd : ByteString
  pub reply_type : ReplyType

abbrev row : Strategy → ByteString → ByteString → ReplyType → RequestDesc
row s r c t = record { strategy = s; redis_cmd = r; ssdb_cmd = c; reply_type = t }

abbrev pub cmds_raw : List RequestDesc
cmds_raw =
    row ping (codes "ping") (codes "ping") status
    ∷ row auto (codes "get") (codes "get") bulk
    ∷ row auto (codes "getset") (codes "getset") bulk
    ∷ row auto (codes "set") (codes "set") status
    ∷ row auto (codes "setnx") (codes "setnx") int
    ∷ row auto (codes "exists") (codes "exists") int
    ∷ row auto (codes "incr") (codes "incr") int
    ∷ row auto (codes "decr") (codes "decr") int
    ∷ row auto (codes "ttl") (codes "ttl") int
    ∷ row auto (codes "expire") (codes "expire") int
    ∷ row auto (codes "getbit") (codes "getbit") int
    ∷ row auto (codes "setbit") (codes "setbit") int
    ∷ row auto (codes "strlen") (codes "strlen") int
    ∷ row auto (codes "bitcount") (codes "bitcount") int
    ∷ row auto (codes "substr") (codes "getrange") bulk
    ∷ row auto (codes "getrange") (codes "getrange") bulk
    ∷ row auto (codes "keys") (codes "keys") multi_bulk
    ∷ row auto (codes "hset") (codes "hset") int
    ∷ row auto (codes "hget") (codes "hget") bulk
    ∷ row auto (codes "hexists") (codes "hexists") int
    ∷ row auto (codes "del") (codes "del") int
    ∷ row auto (codes "mset") (codes "multi_set") status
    ∷ row auto (codes "incrby") (codes "incr") int
    ∷ row auto (codes "decrby") (codes "decr") int
    ∷ row auto (codes "hmset") (codes "multi_hset") status
    ∷ row auto (codes "hdel") (codes "multi_hdel") int
    ∷ row auto (codes "hmdel") (codes "multi_hdel") int
    ∷ row auto (codes "hlen") (codes "hsize") int
    ∷ row auto (codes "hincrby") (codes "hincr") int
    ∷ row auto (codes "zcard") (codes "zsize") int
    ∷ row auto (codes "zscore") (codes "zget") bulk
    ∷ row auto (codes "zrem") (codes "multi_zdel") int
    ∷ row auto (codes "zrank") (codes "zrank") int
    ∷ row auto (codes "zrevrank") (codes "zrrank") int
    ∷ row auto (codes "zcount") (codes "zcount") int
    ∷ row remrangebyrank (codes "zremrangebyrank") (codes "zremrangebyrank") int
    ∷ row remrangebyscore (codes "zremrangebyscore") (codes "zremrangebyscore") int
    ∷ row mget (codes "mget") (codes "multi_get") multi_bulk
    ∷ row hmget (codes "hmget") (codes "multi_hget") multi_bulk
    ∷ row hgetall (codes "hgetall") (codes "hgetall") multi_bulk
    ∷ row hkeys (codes "hkeys") (codes "hkeys") multi_bulk
    ∷ row hvals (codes "hvals") (codes "hvals") multi_bulk
    ∷ row setex (codes "setex") (codes "setx") status
    ∷ row zrange (codes "zrange") (codes "zrange") multi_bulk
    ∷ row zrevrange (codes "zrevrange") (codes "zrrange") multi_bulk
    ∷ row zadd (codes "zadd") (codes "multi_zset") int
    ∷ row zincrby (codes "zincrby") (codes "zincr") bulk
    ∷ row zrangebyscore (codes "zrangebyscore") (codes "zscan") multi_bulk
    ∷ row zrevrangebyscore (codes "zrevrangebyscore") (codes "zrscan") multi_bulk
    ∷ row auto (codes "lpush") (codes "qpush_front") int
    ∷ row auto (codes "rpush") (codes "qpush_back") int
    ∷ row auto (codes "lpop") (codes "qpop_front") bulk
    ∷ row auto (codes "rpop") (codes "qpop_back") bulk
    ∷ row auto (codes "llen") (codes "qsize") int
    ∷ row auto (codes "lsize") (codes "qsize") int
    ∷ row auto (codes "lindex") (codes "qget") bulk
    ∷ row auto (codes "lset") (codes "qset") status
    ∷ row auto (codes "lrange") (codes "qslice") multi_bulk
    ∷ []

-- `cmd_table[desc.redis_cmd] = desc`: the newest row of a name counts.
abbrev register : List RequestDesc → RequestDesc → List RequestDesc
register table desc = desc ∷ table

-- `cmd_table` once it is filled.
unfoldable pub cmd_table : List RequestDesc
cmd_table = foldl register [] cmds_raw

-- `cmd_table.find(cmd)`.
unfoldable pub find_cmd : ByteString → List RequestDesc → Option RequestDesc
find_cmd cmd [] = none
find_cmd cmd (desc ∷ table) = if str_eq desc.redis_cmd cmd then some desc else find_cmd cmd table
