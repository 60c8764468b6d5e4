-- ===== src/Net/Packet.antt =====
-- The SSDB protocol of ssdb/src/net/link.cpp: `Link::recv_req` finds a request in the input, where it is
-- not one of Redis, and `Link::send` writes one. A pointer into the input buffer is the list of the
-- bytes from it to the end of the allocated block; `size` of them are data.
pub mod RoundTrip
pub mod Termination
use model_lib.Prelude.{
  ℕ, zero, suc, ◌+◌, ◌-◌, ◌*◌, Option, none, some, ◌&&◌, ◌||◌, not, List, [], ◌∷◌, ◌++◌, ltb, ◌==◌,
  if◌then◌else◌, get_or, take, drop, length,
}
use model_lib.Prelude.Int.{ℤ, pos, negsuc}
use model_lib.Prelude.Text.{ByteString}
use model_lib.Util.Number.{atoi, is_digit, decimal}
use model_lib.Net.Redis.Parse.{Parsed, bad, more, done, out_of_fuel, Again, find_lf, count_blank}

-- `MAX_PACKET_SIZE`.
abbrev pub max_packet_size : ℕ
max_packet_size = 128 * 1024 * 1024

-- The loop goes on with a pointer, its size, the bytes parsed and `recv_data`.
abbrev pub Next : Type 0
Next = ByteString → ℕ → ℕ → List ByteString → Parsed

-- The line end behind a body: none, "\n" or "\r\n", as its length.
unfoldable pub body_end : ByteString → ℕ → ℕ
body_end head size =
    if ltb 0 size && get_or head 0 0 == 10
    then 1
    else if ltb 1 size && (get_or head 0 0 == 13 && get_or head 1 0 == 10)
    then 2
    else 0

-- The end of a round, behind a body.
unfoldable pub after_body : Next → Next
after_body again head size parsed recv =
    let used = body_end head size in
    let rest = again (drop used head) (size - used) (parsed + used) recv in
    if used == 0
    then (if ltb 1 size then bad else more)
    else if ltb max_packet_size (parsed + used)
    then bad
    else rest

-- A body of the given length. `size` turns negative where it has not arrived.
unfoldable pub take_body : Next → ByteString → ℕ → ℕ → List ByteString → ℤ → Parsed
take_body again body size parsed recv (negsuc n) = bad
take_body again body size parsed recv (pos len) =
    let rest =
      after_body again (drop len body) (size - len) (parsed + len) (recv ++ take len body ∷ []) in
    if ltb size len then more else rest

-- A round, with the place of the first "\n". `head_str` has 20 bytes, the NUL included.
unfoldable pub at_head : Next → ByteString → ℕ → ℕ → List ByteString → Option ℕ → Parsed
at_head again head size parsed recv none = more
at_head again head size parsed recv (some i) =
    let rest =
      take_body again (drop (i + 1) head) (size - (i + 1)) (parsed + (i + 1)) recv
        (atoi (take i head)) in
    if i == 0 || (i == 1 && get_or head 0 0 == 13)
    then done recv (parsed + (i + 1))
    else if not (is_digit (get_or head 0 0))
    then bad
    else if ltb 19 (i + 1)
    then bad
    else rest

-- `while(size > 0)`.
unfoldable pub recv_loop : ℕ → Next
recv_loop zero head size parsed recv = out_of_fuel
recv_loop (suc fuel) head zero parsed recv = more
recv_loop (suc fuel) head (suc size) parsed recv =
    at_head (recv_loop fuel) head (suc size) parsed recv (find_lf head (suc size))

-- A request that does not begin with '*', behind the blank bytes.
unfoldable pub parse_packet : ByteString → ℕ → Parsed
parse_packet head size =
    let blank = count_blank head size in
    recv_loop (suc size) (drop blank head) (size - blank) blank []

-- A record in the layout of `append_record`, before the bytes `t`.
unfoldable pub encode_record : ByteString → ByteString → ByteString
encode_record s t = decimal (length s) ++ 10 ∷ (s ++ 10 ∷ t)

-- A packet in the layout of `send`.
unfoldable pub encode_packet : List ByteString → ByteString → ByteString
encode_packet [] t = 10 ∷ t
encode_packet (s ∷ ss) t = encode_record s (encode_packet ss t)
