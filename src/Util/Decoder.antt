-- ===== src/Util/Decoder.antt =====
-- `Decoder` of ssdb/src/util/bytes.h. Its state is the bytes from `p` on, `size` of them; `none`
-- is the return value -1.
use model_lib.Prelude.{ℕ, Option, none, some, [], ◌∷◌, ltb, if◌then◌else◌, take, drop, length}
use model_lib.Prelude.Text.{ByteString}
use model_lib.Util.Endian.{le_value}

unfoldable pub skip : ℕ → ByteString → Option ByteString
skip n s = if ltb (length s) n then none else some (drop n s)

-- `read_int64` and `read_uint64` read the same bytes; this is their pattern.
unfoldable pub read_uint64 : ByteString → Option (ℕ × ByteString)
unfolding le_value
read_uint64 s = if ltb (length s) 8 then none else some (le_value (take 8 s), drop 8 s)

-- Everything that is left.
unfoldable pub read_data : ByteString → ByteString × ByteString
read_data s = (s, [])

-- A byte with a length, and as many bytes.
unfoldable pub read_8_data : ByteString → Option (ByteString × ByteString)
read_8_data [] = none
read_8_data (len ∷ s) = if ltb (length s) len then none else some (take len s, drop len s)
