-- ===== src/Util/Number/Digits.antt =====
-- How many digits a decimal number has.
use model_lib.Prelude.{ℕ, zero, suc, ◌+◌, ◌/◌, ◌%◌, ◌^◌, ◌≤◌, ◌<◌, ◌↔◌, ◌∷◌, arith, length, []}
use native.Mathlib.Nat.{pow-suc}
use model_lib.Prelude.Text.{ByteString}
use model_lib.Util.Number.{digits_from, decimal}

length-digits_from_pos :
    (f n : ℕ) (out : ByteString) → n < f → length out < length (digits_from f n out)
unfolding digits_from
length-digits_from_pos zero n out h = absurd (omega arith)
length-digits_from_pos (suc f) n out h =
    ground (arith, length-digits_from_pos f (n / 10) ((b'0' + n % 10) ∷ out))

pow-10_pos : (k : ℕ) → 0 < 10 ^ k
pow-10_pos zero = omega arith
pow-10_pos (suc k) = omega (arith, pow-10_pos k, pow-suc 10 k)

-- `k + 1` digits are enough exactly below 10 ^ (k + 1).
length-digits_from :
    (f n k : ℕ) (out : ByteString)
    → n < f
    → (length (digits_from f n out) ≤ suc k + length out) ↔ (n < 10 ^ suc k)
unfolding digits_from
length-digits_from zero n k out h = absurd (omega arith)
length-digits_from (suc f) n zero out h =
    ground (arith, length-digits_from_pos f (n / 10) ((b'0' + n % 10) ∷ out))
length-digits_from (suc f) n (suc k) out h = ground (
  arith,
  length-digits_from f (n / 10) k ((b'0' + n % 10) ∷ out),
  pow-suc 10 (suc k),
  pow-10_pos (suc k),
  pow-suc 10 k,
)

pub length-decimal : (n k : ℕ) → (length (decimal n) ≤ suc k) ↔ (n < 10 ^ suc k)
unfolding decimal
length-decimal n k = ground (arith, length-digits_from (suc n) n k [])
