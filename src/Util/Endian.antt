-- ===== src/Util/Endian.antt =====
-- `big_endian` of ssdb/src/util/strings.h, on words of 16, 32 and 64 bits, and the bytes of a word
-- in memory (the host is little endian, as the source assumes).
pub mod Bits
pub mod Reverse
use Prim.Native.Nat.{bit_and, bit_or}
use model_lib.Prelude.{ℕ, zero, suc, ◌+◌, ◌*◌, ◌/◌, ◌%◌, ◌^◌, [], ◌∷◌, ◌++◌}
use model_lib.Prelude.Text.{ByteString}

-- The shifts promote to `int`, and the result is cut to 16 bits.
unfoldable pub big_endian16 : ℕ → ℕ
big_endian16 v = bit_or (v / 2 ^ 8) (v * 2 ^ 8) % 2 ^ 16

unfoldable pub big_endian32 : ℕ → ℕ
big_endian32 v =
    bit_or
      (bit_or (bit_or (v / 2 ^ 24) (bit_and (v / 2 ^ 8) 0xff00))
        (bit_and (v * 2 ^ 8 % 2 ^ 32) 0xff0000))
      (v * 2 ^ 24 % 2 ^ 32)

unfoldable pub big_endian64 : ℕ → ℕ
big_endian64 v =
    let h = v / 2 ^ 32 in
    let l = bit_and v 0xffffffff in bit_or (big_endian32 h) (big_endian32 l * 2 ^ 32 % 2 ^ 64)

-- The `n` bytes of a word in memory, the lowest first.
unfoldable pub le_bytes : ℕ → ℕ → ByteString
le_bytes zero v = []
le_bytes (suc n) v = v % 256 ∷ le_bytes n (v / 256)

-- `*(uint64_t *)p`, and its kin.
unfoldable pub le_value : ByteString → ℕ
le_value [] = 0
le_value (b ∷ s) = b + le_value s * 256

-- The `n` bytes of a word, the highest first.
unfoldable pub be_bytes : ℕ → ℕ → ByteString
be_bytes zero v = []
be_bytes (suc n) v = be_bytes n (v / 256) ++ v % 256 ∷ []
