-- ===== src/Net/Redis/Parse.antt =====
-- `RedisLink::parse_req` of ssdb/src/net/link_redis.cpp. A pointer into the input buffer is the
-- list of the bytes from it to the end of the allocated block; `size` of them are data. A read
-- past the block yields a NUL byte.
pub mod Encode
pub mod Bounds
pub mod RoundTrip
use model_lib.Prelude.{
  ℕ, zero, suc, ◌+◌, ◌-◌, Option, none, some, ◌&&◌, ◌||◌, Bool, true, false, List, [], ◌∷◌, ◌++◌,
  leb, ltb, not, ◌==◌, if◌then◌else◌, get_or, take, drop, length,
}
use model_lib.Prelude.Int.{ℤ, pos, negsuc}
use model_lib.Prelude.Text.{ByteString}
use model_lib.Util.Number.{strtol, to_int}

-- `memchr(ptr, '\n', size)`, as the distance from `ptr`.
unfoldable pub find_lf : ByteString → ℕ → Option ℕ
find_lf ptr zero = none
find_lf [] (suc size) = none
find_lf (c ∷ ptr) (suc size) =
    if c == 10 then some 0 else elim (find_lf ptr size) [ none ↦ none | some i ↦ some (suc i) ]

-- The leading CRs and LFs of the data.
unfoldable pub count_blank : ByteString → ℕ → ℕ
count_blank ptr zero = 0
count_blank [] (suc size) = 0
count_blank (c ∷ ptr) (suc size) = if c == 10 || c == 13 then suc (count_blank ptr size) else 0

-- -1; 0; 1 with the arguments and the number of bytes that `decr` takes off the buffer.
pub data Parsed : Type 0 where
  bad : Parsed
  more : Parsed
  done : List ByteString → ℕ → Parsed
  out_of_fuel : Parsed

-- The bytes behind an argument: one, and a LF that follows it.
unfoldable pub line_end : ByteString → ℕ → ℕ
line_end ptr size = if ltb 1 size && get_or ptr 1 0 == 10 then 2 else 1

-- The loop goes on with a pointer, its size, the arguments left, the bytes parsed and `recv_bytes`.
abbrev pub Again : Type 0
Again = ByteString → ℕ → ℕ → ℕ → List ByteString → Parsed

-- The body of the loop behind the length of an argument, `len` bytes at `ptr`.
unfoldable pub take_arg : Again → ByteString → ℕ → ℕ → ℕ → ℕ → List ByteString → Parsed
take_arg again ptr size len num_args parsed recv =
    let used = len + line_end (drop len ptr) (size - len) in
    let recv' = recv ++ take len ptr ∷ [] in
    let rest = again (drop used ptr) (size - used) (num_args - 1) (parsed + used) recv' in
    if leb size len then more else if num_args == 1 then done recv' (parsed + used) else rest

-- The body of the loop behind a line that held a number. The first line gives the number of
-- arguments, which is 0 until then.
unfoldable pub at_number : Again → ByteString → ℕ → ℕ → ℕ → List ByteString → ℤ → Parsed
at_number again ptr size num_args parsed recv (negsuc _) = bad
at_number again ptr size num_args parsed recv (pos len) =
    let first = again ptr size len parsed recv in
    if num_args == 0
    then (if len == 0 then bad else first)
    else take_arg again ptr size len num_args parsed recv

-- `ptr + 1` skips the '$' or '*' of the line, which ends `i` bytes on.
unfoldable pub at_line : Again → ByteString → ℕ → ℕ → ℕ → List ByteString → Option ℕ → Parsed
at_line again ptr size num_args parsed recv none = more
at_line again ptr size num_args parsed recv (some i) =
    at_number again (drop (i + 1) ptr) (size - (i + 1)) num_args (parsed + (i + 1)) recv
      (to_int (strtol (drop 1 ptr)))

-- `while(size > 0)`.
unfoldable pub parse_loop : ℕ → Again
parse_loop zero ptr size num_args parsed recv = out_of_fuel
parse_loop (suc fuel) ptr zero num_args parsed recv = more
parse_loop (suc fuel) ptr (suc size) num_args parsed recv =
    at_line (parse_loop fuel) ptr (suc size) num_args parsed recv (find_lf ptr (suc size))

unfoldable pub parse_req : ByteString → ℕ → Parsed
parse_req ptr size =
    let blank = count_blank ptr size in
    let start = drop blank ptr in
    let run = parse_loop (suc size) start (size - blank) 0 blank [] in
    if get_or start 0 0 == b'*' then run else bad
