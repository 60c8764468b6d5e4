-- ===== src/Net/Receive.antt =====
-- How a link takes requests out of its input buffer, and puts packets into an output buffer:
-- `Link::recv_req`, `Link::onRead` and `Link::send` of ssdb/src/net/link.cpp, `RedisLink::recv_req` of
-- ssdb/src/net/link_redis.cpp and `Slave::onRead` of ssdb/src/slave.cpp.
pub mod Whole
pub mod Send
use model_lib.Prelude.{
  ℕ, zero, suc, ◌+◌, ◌-◌, Option, none, some, Bool, List, [], ◌∷◌, ◌++◌, ◌==◌, if◌then◌else◌,
  get_or, drop, length,
}
use model_lib.Prelude.Int.{ℤ, pos, negsuc}
use model_lib.Prelude.Text.{ByteString}
use model_lib.Util.Case.{strtolower}
use model_lib.Util.Buffer.{Buffer, Realloc, content, nice, grow, decr, append, append_record}
use model_lib.Net.Redis.Parse.{Parsed, bad, more, done, out_of_fuel, parse_req, count_blank}
use model_lib.Net.Redis.Table.{RequestDesc}
use model_lib.Net.Redis.Convert.{convert_req}
use model_lib.Net.Packet.{parse_packet}

-- `space() == 0`.
abbrev pub is_full : Buffer → Bool
is_full b = b.total == b.offset + b.size

-- What the Redis link keeps of the last request, for the reply to it.
pub record RedisLink : Type 0 where
  pub req_desc : Option RequestDesc
  pub recv_string : List ByteString

-- The input of a link. The slave's link has a Redis link, too.
pub record Input : Type 0 where
  pub buffer : Buffer
  pub redis : RedisLink

-- NULL, or the strings of a request; none if there is no request yet.
pub data Received : Type 0 where
  null : Received
  request : List ByteString → Input → Received

module _ (R : Realloc) where
  abbrev grown : Buffer → Option Buffer
  grown b = if is_full b then grow R b else some b

  -- Room for more data, once there is none; `none` is a failure of `grow`.
  unfoldable pub ready_for_more : Buffer → Option Buffer
  ready_for_more b = if is_full b then grown (nice b) else some b

  abbrev pub not_ready : RedisLink → Option Buffer → Received
  not_ready redis none = null
  not_ready redis (some b) = request [] (record { buffer = b; redis = redis })

  -- Behind the loop of `Link::recv_req`.
  unfoldable pub after_packet : Input → Parsed → Received
  after_packet input bad = null
  after_packet input out_of_fuel = null
  after_packet input more = not_ready input.redis (ready_for_more input.buffer)
  after_packet input (done recv parsed) =
      request recv (record input { buffer = decr input.buffer parsed })

  module _ (score : ByteString → ByteString) where
    abbrev pub converted : Buffer → Option RequestDesc × List ByteString → Received
    converted b (desc, recv_string) =
        request recv_string
          (record { buffer = b; redis = record { req_desc = desc; recv_string = recv_string } })

    -- `RedisLink::recv_req`, behind `parse_req`.
    unfoldable pub after_redis : Input → Parsed → Received
    after_redis input bad = null
    after_redis input out_of_fuel = null
    after_redis input more = not_ready input.redis (ready_for_more input.buffer)
    after_redis input (done [] parsed) =
        not_ready input.redis (ready_for_more (decr input.buffer parsed))
    after_redis input (done (cmd ∷ args) parsed) =
        converted (decr input.buffer parsed) (convert_req score (strtolower cmd) args)

    -- `Link::recv_req`. The byte behind the blank ones is read even where no data are left.
    unfoldable pub recv_req : Input → Received
    unfolding after_packet after_redis
    recv_req input =
        let ptr = drop input.buffer.offset input.buffer.buf in
        let size = input.buffer.size in
        if size == 0
        then request [] input
        else if get_or (drop (count_blank ptr size) ptr) 0 0 == b'*'
        then after_redis input (parse_req ptr size)
        else after_packet input (parse_packet ptr size)

    -- The loop of `onRead`: each request is given to `proc`, until none is left. `none` is the end of
    -- the link; the last argument is the fuel.
    module _ {S : Type 0} (proc : S → List ByteString → S) where
      unfoldable pub read_loop : ℕ → S → Input → Option (S × Option Input)
      read_loop zero s input = none
      read_loop (suc fuel) s input = elim (recv_req input) [
        | null ↦ some (s, none)
        | request [] input' ↦ some (s, some input')
        | request (a ∷ req) input' ↦ read_loop fuel (proc s (a ∷ req)) input'
      ]

      -- `copy2Buffer`, and the loop. A failure to append is not noticed.
      unfoldable pub on_read : ℕ → S → Input → ByteString → Option (S × Option Input)
      unfolding read_loop
      on_read fuel s input bytes = elim (append R input.buffer bytes) [
        | none ↦ none
        | some (ret, b) ↦ read_loop fuel s (record input { buffer = b })
      ]

  -- What an append returns is not looked at; `none` never comes.
  abbrev pub and_then : Option (ℤ × Buffer) → (Buffer → Option Buffer) → Option Buffer
  and_then none f = none
  and_then (some (ret, b)) f = f b

  -- `append_record` for each string, and the end of the packet.
  unfoldable pub append_packet : Buffer → List ByteString → Option Buffer
  append_packet b [] = and_then (append R b (10 ∷ [])) some
  append_packet b (s ∷ ss) = and_then (append_record R b s) (λ b'. append_packet b' ss)

  -- `Link::send` of one string, two, or four: a new buffer on a block of malloc, and the packet.
  unfoldable pub send : ByteString → List ByteString → Option Buffer
  unfolding append_packet
  send block ss =
      append_packet (record { buf = block; offset = 0; size = 0; total = length block }) ss

  -- The data of a packet, and the bytes that are sent behind it.
  abbrev pub sent_with : Option Buffer → Option ByteString → Option ByteString
  sent_with none rest = none
  sent_with (some b) none = none
  sent_with (some b) (some rest) = some (content b ++ rest)

  -- The bytes that libuv is handed for messages one after another; `blocks` are those of malloc.
  unfoldable pub send_all : (ℕ → ByteString) → List (List ByteString) → Option ByteString
  send_all blocks [] = some []
  send_all blocks (m ∷ ms) = sent_with (send (blocks 0) m) (send_all (λ i. blocks (suc i)) ms)
