-- ===== src/Net/Redis/Convert.antt =====
-- `RedisLink::convert_req` of ssdb/src/net/link_redis.cpp: a Redis request becomes an SSDB request.
-- `args` are `recv_bytes[1..]`; the result is `recv_string`, and `req_desc` is what `find_cmd` gave.
pub mod Ranges
use model_lib.Prelude.{
  ℕ, Option, none, some, Bool, true, false, ◌&&◌, ◌||◌, not, List, [], ◌∷◌, ◌++◌, ◌==◌, ltb,
  if◌then◌else◌, ◌^◌,
}
use model_lib.Prelude.Int.{ℤ, pos, negsuc, ◌+ℤ◌, ◌-ℤ◌, ltb_ℤ, signed, to_word}
use model_lib.Prelude.Text.{ByteString, codes, str_eq}
use model_lib.Util.Number.{str_int, str_to_int, str_to_int64, to_int}
use model_lib.Util.Case.{strtolower}
use model_lib.Net.Redis.Table.{
  RequestDesc, Strategy, auto, ping, mget, hmget, hgetall, hkeys, hvals, setex, zrange, zrevrange,
  zrangebyscore, zrevrangebyscore, zadd, zincrby, remrangebyrank, remrangebyscore, null, find_cmd,
  cmd_table,
}

abbrev pub no_limit : ByteString
no_limit = codes "2000000000"

-- The conversions read `errno` nowhere, so that it enters as 0 and is dropped.
abbrev int_of : ByteString → ℤ
int_of s = (str_to_int 0 s).0

abbrev int64_of : ByteString → ℤ
int64_of s = (str_to_int64 0 s).0

-- `end - start + 1` in `int64_t`.
unfoldable pub range_size : ℤ → ℤ → ℤ
range_size start end = signed (2 ^ 64) (to_word (2 ^ 64) (end -ℤ start +ℤ pos 1))

-- Is `z` not negative; is it -1?
abbrev is_nat : ℤ → Bool
is_nat (pos _) = true
is_nat (negsuc _) = false

abbrev is_minus_one : ℤ → Bool
is_minus_one (pos _) = false
is_minus_one (negsuc n) = n == 0

-- The arguments that ZRANGE and ZREVRANGE push for name, start and end.
unfoldable pub range_args : ByteString → ByteString → ByteString → List ByteString
unfolding range_size
range_args name start end =
    let s = int64_of start in
    let e = int64_of end in
    if is_minus_one e
    then name ∷ start ∷ codes "-1" ∷ []
    else if is_nat s && is_nat e
    then name ∷ start ∷ str_int (range_size s e) ∷ []
    else []

-- The options behind ZRANGEBYSCORE key min max.
pub record Options : Type 0 where
  pub after_limit : Bool
  pub offset : ByteString
  pub count : ByteString
  pub withscores : ByteString

abbrev pub no_options : Options
no_options = record { after_limit = false; offset = []; count = []; withscores = [] }

-- The first half of a round: an argument behind LIMIT.
unfoldable pub take_limit : Options → ByteString → Options
take_limit o s =
    if o.after_limit
    then (if str_eq o.offset []
        then record o { offset = s }
        else record o { count = s; after_limit = false })
    else o

-- The second half: the keywords, in any case of letters; `low` is the argument in lower case.
unfoldable pub take_keyword : Options → ByteString → Options
take_keyword o low =
    if str_eq low (codes "withscores")
    then record o { withscores = low }
    else if str_eq low (codes "limit")
    then record o { after_limit = true }
    else o

unfoldable pub read_options : Options → List ByteString → Options
read_options o [] = o
read_options o (s ∷ rest) = read_options (take_keyword (take_limit o s) (strtolower s)) rest

-- A score bound: infinite ones are dropped, and `(` excludes the bound, which moves by one as an
-- `int`: up if `up` holds, else down.
unfoldable pub score_bound : Bool → ByteString → ByteString
score_bound up [] = []
score_bound up (c ∷ s) =
    if str_eq (c ∷ s) (codes "-inf") || str_eq (c ∷ s) (codes "+inf")
    then []
    else if c == b'('
    then str_int (to_int (if up then int_of s +ℤ pos 1 else int_of s -ℤ pos 1))
    else c ∷ s

abbrev or_default : ByteString → ByteString → ByteString
or_default d [] = d
or_default d (c ∷ s) = c ∷ s

-- What is pushed behind the command, once the options are read.
unfoldable pub score_request :
    Bool → ByteString → ByteString → ByteString → Options → List ByteString
score_request up name smin smax o =
    if str_eq smin [] || str_eq smax []
    then []
    else name
      ∷ []
      ∷ score_bound up smin
      ∷ score_bound (not up) smax
      ∷ or_default (codes "0") o.offset
      ∷ or_default no_limit o.count
      ∷ o.withscores
      ∷ []

-- ZRANGEBYSCORE (`up`) and ZREVRANGEBYSCORE.
unfoldable pub score_args : Bool → List ByteString → List ByteString
unfolding score_request
score_args up (name ∷ smin ∷ smax ∷ rest) =
    score_request up name smin smax (read_options no_options rest)
score_args up _ = []

module _ (score : ByteString → ByteString) where
  -- ZADD: pairs of score and member, each as member and `str((int64_t)score)`.
  unfoldable pub score_pairs : List ByteString → List ByteString
  score_pairs (s ∷ member ∷ rest) = member ∷ score s ∷ score_pairs rest
  score_pairs _ = []

  -- What is pushed behind `ssdb_cmd`, by strategy.
  unfoldable pub convert_args : Strategy → List ByteString → List ByteString
  unfolding score_args range_args score_pairs
  convert_args hkeys (name ∷ []) = name ∷ [] ∷ [] ∷ no_limit ∷ []
  convert_args hkeys _ = []
  convert_args hvals (name ∷ []) = name ∷ [] ∷ [] ∷ no_limit ∷ []
  convert_args hvals _ = []
  convert_args setex (key ∷ ttl ∷ val ∷ []) = key ∷ val ∷ ttl ∷ []
  convert_args setex _ = []
  convert_args zincrby (name ∷ by ∷ key ∷ []) = name ∷ key ∷ by ∷ []
  convert_args zincrby _ = []
  convert_args zadd (name ∷ rest) = name ∷ score_pairs rest
  convert_args zadd [] = []
  convert_args remrangebyrank (name ∷ lo ∷ hi ∷ _) = name ∷ lo ∷ hi ∷ []
  convert_args remrangebyrank _ = []
  convert_args remrangebyscore (name ∷ lo ∷ hi ∷ _) = name ∷ lo ∷ hi ∷ []
  convert_args remrangebyscore _ = []
  convert_args zrange (name ∷ start ∷ end ∷ []) = range_args name start end
  convert_args zrange (name ∷ start ∷ end ∷ opt ∷ _) =
      range_args name start end ++ strtolower opt ∷ []
  convert_args zrange _ = []
  convert_args zrevrange (name ∷ start ∷ end ∷ []) = range_args name start end
  convert_args zrevrange (name ∷ start ∷ end ∷ opt ∷ _) =
      range_args name start end ++ strtolower opt ∷ []
  convert_args zrevrange _ = []
  convert_args zrangebyscore args = score_args true args
  convert_args zrevrangebyscore args = score_args false args
  convert_args _ args = args

  -- An unknown command is passed on as it is.
  unfoldable pub convert_with : Option RequestDesc → ByteString → List ByteString → List ByteString
  unfolding convert_args
  convert_with none cmd args = cmd ∷ args
  convert_with (some desc) cmd args = desc.ssdb_cmd ∷ convert_args desc.strategy args

  -- `cmd` is in lower case already. The result is `req_desc` and `recv_string`.
  unfoldable pub convert_req : ByteString → List ByteString → Option RequestDesc × List ByteString
  unfolding convert_with
  convert_req cmd args = let desc = find_cmd cmd cmd_table in (desc, convert_with desc cmd args)
