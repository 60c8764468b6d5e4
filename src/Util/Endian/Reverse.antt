-- ===== src/Util/Endian/Reverse.antt =====
-- `big_endian` reverses the bytes of a word.
use Prim.Native.Nat.{bit_and}
use model_lib.Prelude.{ℕ, ◌+◌, ◌*◌, ◌/◌, ◌%◌, ◌^◌, ◌<◌, ◌≡◌, arith}
use model_lib.Util.Endian.{big_endian32, big_endian64, le_bytes, be_bytes, le_value}
use model_lib.Util.Endian.Bits.{bit_or-add, and_255, and_256, and_byte}

-- The bytes of a 32-bit word in the other order.
abbrev swapped32 : ℕ → ℕ
swapped32 v = v / 2 ^ 24 + v / 2 ^ 16 % 256 * 2 ^ 8 + v / 2 ^ 8 % 256 * 2 ^ 16 + v % 256 * 2 ^ 24

mask_high : (x : ℕ) → bit_and x 0xff00 ≡ x / 256 % 256 * 2 ^ 8
mask_high x = omega (arith, and_256 x 255, and_255 (x / 256))

mask_top : (x : ℕ) → bit_and x 0xff0000 ≡ x / 2 ^ 16 % 256 * 2 ^ 16
mask_top x = omega (arith, and_256 x 65280, mask_high (x / 256))

big_endian32-swapped : (v : ℕ) → v < 2 ^ 32 → big_endian32 v ≡ swapped32 v
unfolding big_endian32
big_endian32-swapped v h =
    let b1 = v / 2 ^ 8 % 256 in
    let b2 = v / 2 ^ 16 % 256 in
    let e1 : v / 2 ^ 8 / 256 % 256 ≡ b2 = omega arith in
    let e2 : v * 2 ^ 8 % 2 ^ 32 / 2 ^ 16 % 256 ≡ b1 = omega arith in
    let e3 : v * 2 ^ 24 % 2 ^ 32 ≡ v % 256 * 2 ^ 24 = omega arith in
    rw (
      mask_high (v / 2 ^ 8),
      mask_top (v * 2 ^ 8 % 2 ^ 32),
      e1,
      e2,
      e3,
      bit_or-add 8 (v / 2 ^ 24) b2 (omega arith),
      bit_or-add 16 (v / 2 ^ 24 + b2 * 2 ^ 8) b1 (omega arith),
      bit_or-add 24 (v / 2 ^ 24 + b2 * 2 ^ 8 + b1 * 2 ^ 16) (v % 256) (omega arith),
    )

mask_word : (x : ℕ) → bit_and x 0xffffffff ≡ x % 2 ^ 32
mask_word x = omega (
  arith,
  and_byte x 0xffffff,
  and_byte (x / 256) 0xffff,
  and_byte (x / 256 / 256) 0xff,
  and_255 (x / 256 / 256 / 256),
)

big_endian64-swapped :
    (v : ℕ) → v < 2 ^ 64 → big_endian64 v ≡ swapped32 (v / 2 ^ 32) + swapped32 (v % 2 ^ 32) * 2 ^ 32
unfolding big_endian64
big_endian64-swapped v h =
    let low = v % 2 ^ 32 in
    let e : swapped32 low * 2 ^ 32 % 2 ^ 64 ≡ swapped32 low * 2 ^ 32 = omega arith in
    rw (
      mask_word v,
      big_endian32-swapped (v / 2 ^ 32) (omega arith),
      big_endian32-swapped low (omega arith),
      e,
      bit_or-add 32 (swapped32 (v / 2 ^ 32)) (swapped32 low) (omega arith),
    )

-- The bytes of `big_endian(v)` in memory are those of `v` with the highest first.
pub le_bytes-big_endian64 : (v : ℕ) → v < 2 ^ 64 → le_bytes 8 (big_endian64 v) ≡ be_bytes 8 v
unfolding le_bytes be_bytes
le_bytes-big_endian64 v h = rw (big_endian64-swapped v h) (ground arith)

pub big_endian64-lt : (v : ℕ) → v < 2 ^ 64 → big_endian64 v < 2 ^ 64
big_endian64-lt v h = rw (big_endian64-swapped v h) (omega arith)

-- A word of 64 bits is read back from its bytes.
pub le_value-le_bytes : (v : ℕ) → v < 2 ^ 64 → le_value (le_bytes 8 v) ≡ v
unfolding le_value le_bytes
le_value-le_bytes v h = omega arith

-- Swapping twice gives the word back.
pub big_endian64-big_endian64 : (v : ℕ) → v < 2 ^ 64 → big_endian64 (big_endian64 v) ≡ v
big_endian64-big_endian64 v h =
    rw (big_endian64-swapped (big_endian64 v) (big_endian64-lt v h), big_endian64-swapped v h)
      (omega arith)
