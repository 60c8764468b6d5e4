-- ===== src/Util/Endian/Bits.antt =====
-- Facts about `bit_and` and `bit_or` at variables, from the digit recursion behind both.
use Prim.Native.Nat.{
  ℕ, two, zero, suc, ◌+◌, ◌*◌, ◌/◌, ◌%◌, ◌^◌, ◌≤◌, ◌<◌, min, max, bit_and, bit_or, digits,
  bit_and-bitwise, bit_or-bitwise,
}
use native.Mathlib.Nat.{pow-suc, mul_assoc}
use mathlib.Core.Path.{◌≡◌, refl, ap, sym, ◌∙◌}
use native.Mathlib.Omega.{arith}

-- The recursion on `a`, with fuel; any fuel from `a` on gives the same word.
module _ (base : ℕ → ℕ) (digit : ℕ → ℕ → ℕ) where
  digits_enough : (a b n m : ℕ) → a ≤ n → a ≤ m → digits base digit n a b ≡ digits base digit m a b
  digits_enough zero b zero zero h k = refl
  digits_enough zero b zero (suc m) h k = refl
  digits_enough zero b (suc n) zero h k = refl
  digits_enough zero b (suc n) (suc m) h k = refl
  digits_enough (suc a) b zero m h k = absurd (omega arith)
  digits_enough (suc a) b (suc n) zero h k = absurd (omega arith)
  digits_enough (suc a) b (suc n) (suc m) h k =
      ap (λ t. t * two + digit (suc a % two) (b % two))
        (digits_enough (suc a / two) (b / two) n m (omega arith) (omega arith))

zero-bit_and : (b : ℕ) → bit_and 0 b ≡ 0
zero-bit_and b = bit_and-bitwise 0 b

zero-bit_or : (b : ℕ) → bit_or 0 b ≡ b
zero-bit_or b = bit_or-bitwise 0 b

-- One binary digit of each.
and_digit : (a b : ℕ) → bit_and a b ≡ bit_and (a / 2) (b / 2) * 2 + min (a % 2) (b % 2)
and_digit zero b = omega (arith, zero-bit_and b, zero-bit_and (b / 2))
and_digit (suc a) b =
    let h = suc a / 2 in
    omega (
      arith,
      bit_and-bitwise (suc a) b,
      bit_and-bitwise h (b / 2),
      digits_enough (λ t. zero) min h (b / 2) a h (omega arith) (omega arith),
    )

or_digit : (a b : ℕ) → bit_or a b ≡ bit_or (a / 2) (b / 2) * 2 + max (a % 2) (b % 2)
or_digit zero b = omega (arith, zero-bit_or b, zero-bit_or (b / 2))
or_digit (suc a) b =
    let h = suc a / 2 in
    omega (
      arith,
      bit_or-bitwise (suc a) b,
      bit_or-bitwise h (b / 2),
      digits_enough (λ t. t) max h (b / 2) a h (omega arith) (omega arith),
    )

bit_or-even : (a x : ℕ) → bit_or a (x * 2) ≡ bit_or (a / 2) x * 2 + a % 2
bit_or-even a x =
    let half : x * 2 / 2 ≡ x = omega arith in
    let even : x * 2 % 2 ≡ 0 = omega arith in or_digit a (x * 2) ∙ rw (half, even) (omega arith)

-- Words that share no bit are added.
pub bit_or-add : (k a b : ℕ) → a < 2 ^ k → bit_or a (b * 2 ^ k) ≡ a + b * 2 ^ k
bit_or-add zero zero b h = omega (arith, zero-bit_or (b * 1))
bit_or-add zero (suc a) b h = absurd (omega arith)
bit_or-add (suc k) a b h =
    let double : b * 2 ^ suc k ≡ b * 2 ^ k * 2 =
      ap (λ t. b * t) (pow-suc 2 k) ∙ sym (mul_assoc b (2 ^ k) 2) in
    let room : a < 2 ^ k * 2 = omega (arith, pow-suc 2 k) in
    rw double (omega (arith, bit_or-even a (b * 2 ^ k), bit_or-add k (a / 2) b (omega arith)))

and_zero_from : (n a : ℕ) → a ≤ n → bit_and a 0 ≡ 0
and_zero_from n zero h = zero-bit_and 0
and_zero_from zero (suc a) h = absurd (omega arith)
and_zero_from (suc n) (suc a) h =
    omega (arith, and_digit (suc a) 0, and_zero_from n (suc a / 2) (omega arith))

and_zero : (a : ℕ) → bit_and a 0 ≡ 0
and_zero a = and_zero_from a a (omega arith)

and_15 : (a : ℕ) → bit_and a 15 ≡ a % 16
and_15 a = omega (
  arith,
  and_digit a 15,
  and_digit (a / 2) 7,
  and_digit (a / 2 / 2) 3,
  and_digit (a / 2 / 2 / 2) 1,
  and_zero (a / 2 / 2 / 2 / 2),
)

pub and_255 : (a : ℕ) → bit_and a 255 ≡ a % 256
and_255 a = omega (
  arith,
  and_digit a 255,
  and_digit (a / 2) 127,
  and_digit (a / 2 / 2) 63,
  and_digit (a / 2 / 2 / 2) 31,
  and_15 (a / 2 / 2 / 2 / 2),
)

-- A mask with zeros at its end.
and_2 : (a m : ℕ) → bit_and a (m * 2) ≡ bit_and (a / 2) m * 2
and_2 a m =
    let half : m * 2 / 2 ≡ m = omega arith in
    let even : m * 2 % 2 ≡ 0 = omega arith in and_digit a (m * 2) ∙ rw (half, even) (omega arith)

and_16 : (a m : ℕ) → bit_and a (m * 16) ≡ bit_and (a / 16) m * 16
and_16 a m =
    let e : m * 16 ≡ m * 2 * 2 * 2 * 2 = omega arith in
    let d : a / 2 / 2 / 2 / 2 ≡ a / 16 = omega arith in
    rw (e, ← d)
      (omega (
        arith,
        and_2 a (m * 2 * 2 * 2),
        and_2 (a / 2) (m * 2 * 2),
        and_2 (a / 2 / 2) (m * 2),
        and_2 (a / 2 / 2 / 2) m,
      ))

pub and_256 : (a m : ℕ) → bit_and a (m * 256) ≡ bit_and (a / 256) m * 256
and_256 a m =
    let e : m * 256 ≡ m * 16 * 16 = omega arith in
    let d : a / 16 / 16 ≡ a / 256 = omega arith in
    rw (e, ← d) (omega (arith, and_16 a (m * 16), and_16 (a / 16) m))

-- A mask with ones at its end.
and_1 : (a m : ℕ) → bit_and a (m * 2 + 1) ≡ bit_and (a / 2) m * 2 + a % 2
and_1 a m =
    let half : (m * 2 + 1) / 2 ≡ m = omega arith in
    let odd : (m * 2 + 1) % 2 ≡ 1 = omega arith in
    and_digit a (m * 2 + 1) ∙ rw (half, odd) (omega arith)

and_ones : (a m : ℕ) → bit_and a (m * 16 + 15) ≡ bit_and (a / 16) m * 16 + a % 16
and_ones a m =
    let e : m * 16 + 15 ≡ (((m * 2 + 1) * 2 + 1) * 2 + 1) * 2 + 1 = omega arith in
    let d : a / 2 / 2 / 2 / 2 ≡ a / 16 = omega arith in
    rw (e, ← d)
      (omega (
        arith,
        and_1 a (((m * 2 + 1) * 2 + 1) * 2 + 1),
        and_1 (a / 2) ((m * 2 + 1) * 2 + 1),
        and_1 (a / 2 / 2) (m * 2 + 1),
        and_1 (a / 2 / 2 / 2) m,
      ))

pub and_byte : (a m : ℕ) → bit_and a (m * 256 + 255) ≡ bit_and (a / 256) m * 256 + a % 256
and_byte a m =
    let e : m * 256 + 255 ≡ (m * 16 + 15) * 16 + 15 = omega arith in
    let d : a / 16 / 16 ≡ a / 256 = omega arith in
    rw (e, ← d) (omega (arith, and_ones a (m * 16 + 15), and_ones (a / 16) m))
