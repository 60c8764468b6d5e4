-- ===== src/Net/Redis/Reply.antt =====
-- `RedisLink::send_resp` of ssdb/src/net/link_redis.cpp: what a response appends to the output.
pub mod Arrays
pub mod MultiGet
use model_lib.Prelude.{
  ℕ, suc, ◌+◌, ◌-◌, ◌/◌, ◌%◌, Option, none, some, Bool, true, false, ◌&&◌, ◌||◌, not, List, [], ◌∷◌,
  ◌++◌, ◌==◌, ltb, if◌then◌else◌, length, get_or, drop,
}
use model_lib.Prelude.Int.{ℤ, pos, ◌-ℤ◌}
use model_lib.Prelude.Text.{ByteString, codes, str_eq}
use model_lib.Util.Number.{decimal, str_int}
use model_lib.Net.Redis.Table.{
  RequestDesc, ReplyType, Strategy, ping, mget, hmget, zrange, zrevrange, zrangebyscore,
  zrevrangebyscore,
}

abbrev pub crlf : ByteString
crlf = 13 ∷ 10 ∷ []

-- `snprintf(buf, sizeof(buf), "*%d\r\n", n)`.
unfoldable pub array_header : ℤ → ByteString
array_header n = b'*' ∷ (str_int n ++ crlf)

-- `$<length>\r\n`, the bytes and `\r\n`.
unfoldable pub bulk_string : ByteString → ByteString
bulk_string val = b'$' ∷ (decimal (length val) ++ 13 ∷ 10 ∷ (val ++ crlf))

unfoldable pub bulk_strings : List ByteString → ByteString
bulk_strings [] = []
bulk_strings (val ∷ vals) = bulk_string val ++ bulk_strings vals

-- Every other value, from the first: `i += 1` in the body of the loop.
unfoldable pub every_other : List ByteString → List ByteString
every_other [] = []
every_other (a ∷ []) = a ∷ []
every_other (a ∷ b ∷ rest) = a ∷ every_other rest

abbrev first_or_empty : List ByteString → ByteString
first_or_empty [] = []
first_or_empty (a ∷ _) = a

-- `resp[0]` is not "ok"; `args` is what follows it.
unfoldable pub error_reply : ByteString → List ByteString → ByteString
error_reply status args =
    if str_eq status (codes "error")
      || str_eq status (codes "fail")
      || str_eq status (codes "client_error")
    then codes "-ERR " ++ (first_or_empty args ++ crlf)
    else if str_eq status (codes "not_found")
    then codes "$-1\r\n"
    else if str_eq status (codes "noauth")
    then codes "-NOAUTH " ++ (first_or_empty args ++ crlf)
    else codes "-ERR server error\r\n"

-- The loop of MGET: `resp` holds the found keys with their values, in the order of `keys`. A key
-- with no value behind it is past the end of `resp`, which the parity of `resp` excludes.
unfoldable pub mget_loop : List ByteString → List ByteString → ByteString
mget_loop [] resp = []
mget_loop (key ∷ keys) [] = codes "$-1\r\n" ++ mget_loop keys []
mget_loop (key ∷ keys) (found ∷ []) = codes "$-1\r\n" ++ mget_loop keys []
mget_loop (key ∷ keys) (found ∷ val ∷ resp) =
    let miss = codes "$-1\r\n" ++ mget_loop keys (found ∷ val ∷ resp) in
    let hit = bulk_string val ++ mget_loop keys resp in if not (str_eq key found) then miss else hit

-- MGET and HMGET: `skip` is the number of strings of `recv_string` in front of the keys.
unfoldable pub mget_reply : ℕ → List ByteString → List ByteString → ByteString
unfolding mget_loop
mget_reply skip recv_string vals =
    if not (suc (length vals) % 2 == 1)
    then codes "*0"
    else array_header (pos (length recv_string) -ℤ pos skip)
      ++ mget_loop (drop skip recv_string) vals

-- The last string of `recv_string`.
abbrev last_or_empty : List ByteString → ByteString
last_or_empty [] = []
last_or_empty (a ∷ []) = a
last_or_empty (a ∷ b ∷ rest) = last_or_empty (b ∷ rest)

-- Are the scores sent? Other commands than the four send all values.
unfoldable pub withscores : Strategy → List ByteString → Bool
withscores zrange recv_string =
    not (ltb (length recv_string) 5 || not (str_eq (get_or recv_string 4 []) (codes "withscores")))
withscores zrevrange recv_string =
    not (ltb (length recv_string) 5 || not (str_eq (get_or recv_string 4 []) (codes "withscores")))
withscores zrangebyscore recv_string = str_eq (last_or_empty recv_string) (codes "withscores")
withscores zrevrangebyscore recv_string = str_eq (last_or_empty recv_string) (codes "withscores")
withscores _ recv_string = true

unfoldable pub multi_bulk_reply : Strategy → List ByteString → List ByteString → ByteString
unfolding withscores
multi_bulk_reply strategy recv_string vals =
    if withscores strategy recv_string
    then array_header (pos (length vals)) ++ bulk_strings vals
    else array_header (pos (length vals / 2)) ++ bulk_strings (every_other vals)

unfoldable pub bulk_reply : List ByteString → ByteString
bulk_reply [] = codes "$0\r\n"
bulk_reply (val ∷ _) = bulk_string val

unfoldable pub int_reply : List ByteString → ByteString
int_reply [] = codes "$0\r\n"
int_reply (val ∷ _) = b':' ∷ (val ++ crlf)

-- By the type of the reply. STRATEGY_PING is tested before, and MGET behind REPLY_INT, so both
-- take their own branch for the type that the table gives them.
unfoldable pub typed_reply : ReplyType → Strategy → List ByteString → List ByteString → ByteString
unfolding bulk_reply int_reply mget_reply multi_bulk_reply
typed_reply ReplyType.status strategy recv_string vals = codes "+OK\r\n"
typed_reply ReplyType.bulk strategy recv_string vals = bulk_reply vals
typed_reply ReplyType.int strategy recv_string vals = int_reply vals
typed_reply ReplyType.multi_bulk mget recv_string vals = mget_reply 1 recv_string vals
typed_reply ReplyType.multi_bulk hmget recv_string vals = mget_reply 2 recv_string vals
typed_reply ReplyType.multi_bulk strategy recv_string vals =
    multi_bulk_reply strategy recv_string vals

unfoldable pub described_reply :
    Strategy → ReplyType → List ByteString → List ByteString → ByteString
unfolding typed_reply
described_reply ping type recv_string vals = codes "+PONG\r\n"
described_reply strategy type recv_string vals = typed_reply type strategy recv_string vals

unfoldable pub ok_reply : Option RequestDesc → List ByteString → List ByteString → ByteString
unfolding described_reply
ok_reply none recv_string vals = array_header (pos (length vals)) ++ bulk_strings vals
ok_reply (some desc) recv_string vals =
    described_reply desc.strategy desc.reply_type recv_string vals

-- What `send_resp` appends, for the `req_desc` and `recv_string` of the last request.
unfoldable pub send_resp : Option RequestDesc → List ByteString → List ByteString → ByteString
unfolding ok_reply error_reply
send_resp req_desc recv_string [] = []
send_resp req_desc recv_string (status ∷ vals) =
    if not (str_eq status (codes "ok"))
    then error_reply status vals
    else ok_reply req_desc recv_string vals
