-- ===== src/Util/Number/RoundTrip.antt =====
-- What is printed in decimal is read back.
use model_lib.Prelude.{
  ap, ℕ, zero, suc, ◌+◌, ◌/◌, ◌%◌, ◌^◌, ◌≤◌, ◌<◌, ◌≡◌, ◌≢◌, ◌⊎◌, All, refl, true, false, [], ◌∷◌,
  ◌++◌, arith, append_assoc, append-nil, ◌∙◌,
}
use model_lib.Prelude.Int.{ℤ, pos, negsuc, pos_part, neg_part}
use model_lib.Prelude.Text.{ByteString}
use model_lib.Util.Number.{
  str_int, is_digit, digits_from, decimal, str_uint64, skip_spaces, read_digits, starts_with_digit,
  read_sign, scan_number, strtol, to_int, strtoull, str_to_int, str_to_int64, str_to_uint64,
}

digits_from-append : (f n : ℕ) (out : ByteString) → digits_from f n out ≡ digits_from f n [] ++ out
unfolding digits_from
digits_from-append zero n out = refl
digits_from-append (suc f) n out = ground (
  arith,
  digits_from-append f (n / 10) ((b'0' + n % 10) ∷ out),
  digits_from-append f (n / 10) ((b'0' + n % 10) ∷ []),
  append_assoc (digits_from f (n / 10) []) ((b'0' + n % 10) ∷ []) out,
)

read_digits-digits_from :
    (f n : ℕ) (out : ByteString)
    → n ≤ f
    → read_digits 0 (digits_from (suc f) n out) ≡ read_digits n out
unfolding read_digits digits_from
read_digits-digits_from zero n out h = ground arith
read_digits-digits_from (suc f) n out h =
    ground (arith, read_digits-digits_from f (n / 10) ((b'0' + n % 10) ∷ out))

-- `s` does not begin with a digit.
abbrev pub StopsDigits : ByteString → Type 0
StopsDigits s = starts_with_digit s ≡ false

read_digits_stop : (n : ℕ) (rest : ByteString) → StopsDigits rest → read_digits n rest ≡ (n, rest)
unfolding read_digits starts_with_digit
read_digits_stop n [] h = refl
read_digits_stop n (c ∷ rest) h = ground arith

pub read_digits-decimal :
    (n : ℕ) (rest : ByteString) → StopsDigits rest → read_digits 0 (decimal n ++ rest) ≡ (n, rest)
unfolding decimal
read_digits-decimal n rest h =
    rw (← digits_from-append (suc n) n rest)
      (read_digits-digits_from n n rest (omega arith) ∙ read_digits_stop n rest h)

digits_from-starts :
    (f n : ℕ) (out : ByteString)
    → starts_with_digit out ≡ true
    → starts_with_digit (digits_from f n out) ≡ true
unfolding digits_from starts_with_digit
digits_from-starts zero n out h = h
digits_from-starts (suc f) n out h =
    ground (arith, digits_from-starts f (n / 10) ((b'0' + n % 10) ∷ out))

decimal-starts_from :
    (f n : ℕ) (rest : ByteString) → starts_with_digit (digits_from (suc f) n rest) ≡ true
unfolding digits_from starts_with_digit
decimal-starts_from f n rest =
    ground (arith, digits_from-starts f (n / 10) ((b'0' + n % 10) ∷ rest))

pub decimal-starts : (n : ℕ) (rest : ByteString) → starts_with_digit (decimal n ++ rest) ≡ true
unfolding decimal
decimal-starts n rest = rw (← digits_from-append (suc n) n rest) (decimal-starts_from n n rest)

skip_spaces-digit : (s : ByteString) → starts_with_digit s ≡ true → skip_spaces s ≡ s
unfolding skip_spaces starts_with_digit
skip_spaces-digit [] h = refl
skip_spaces-digit (c ∷ s) h = ground arith

read_sign-digit : (s : ByteString) → starts_with_digit s ≡ true → read_sign s ≡ (false, s)
unfolding read_sign starts_with_digit
read_sign-digit [] h = refl
read_sign-digit (c ∷ s) h = ground arith

-- Reading a print that no digit follows gives the number, and stops behind it.
pub scan_number-decimal :
    (n : ℕ) (rest : ByteString)
    → StopsDigits rest
    → scan_number (decimal n ++ rest) ≡ record { negative = false; magnitude = n; rest = rest }
unfolding scan_number
scan_number-decimal n rest h = rw (
  skip_spaces-digit _ (decimal-starts n rest),
  read_sign-digit _ (decimal-starts n rest),
  read_digits-decimal n rest h,
  decimal-starts n rest,
)

pub strtol-decimal :
    (n : ℕ) (rest : ByteString) → n < 2 ^ 63 → StopsDigits rest → strtol (decimal n ++ rest) ≡ pos n
unfolding strtol
strtol-decimal n rest fits h = rw (scan_number-decimal n rest h) (ground arith)

to_int_small : (n : ℕ) → n < 2 ^ 31 → to_int (pos n) ≡ pos n
unfolding to_int
to_int_small n h = ground arith

pub to_int-strtol-decimal :
    (n : ℕ) (rest : ByteString)
    → n < 2 ^ 31
    → StopsDigits rest
    → to_int (strtol (decimal n ++ rest)) ≡ pos n
to_int-strtol-decimal n rest fits h =
    rw (strtol-decimal n rest (omega arith) h) (to_int_small n fits)

-- `str_to_uint64(str(v))` is `v`, and leaves `errno` at 0, for every uint64_t.
pub str_to_uint64-str_uint64 :
    (errno v : ℕ) → v < 2 ^ 64 → str_to_uint64 errno (str_uint64 v) ≡ (v, 0)
unfolding str_to_uint64 strtoull str_uint64 starts_with_digit
str_to_uint64-str_uint64 errno v fits =
    rw (← append-nil (decimal v)) (rw (scan_number-decimal v [] refl) (ground arith))

digits_from-Lacks :
    (b f n : ℕ) (out : ByteString)
    → b < b'0' ⊎ b'9' < b
    → All (λ c. c ≢ b) out
    → All (λ c. c ≢ b) (digits_from f n out)
unfolding digits_from
digits_from-Lacks b zero n out hb h = h
digits_from-Lacks b (suc f) n out hb h =
    ground (arith, digits_from-Lacks b f (n / 10) ((b'0' + n % 10) ∷ out))

-- A decimal print holds no byte but digits.
pub decimal-Lacks : (b n : ℕ) → b < b'0' ⊎ b'9' < b → All (λ c. c ≢ b) (decimal n)
unfolding decimal
decimal-Lacks b n hb = digits_from-Lacks b (suc n) n [] hb tt

-- `str_to_int64(str(v))` for a value that is not negative.
pub str_to_int64-decimal : (errno v : ℕ) → v < 2 ^ 63 → str_to_int64 errno (decimal v) ≡ (pos v, 0)
unfolding str_to_int64 strtol starts_with_digit
str_to_int64-decimal errno v fits =
    rw (← append-nil (decimal v)) (rw (scan_number-decimal v [] refl) (ground arith))

-- `str_to_int(str(v))` for a value that is not negative.
pub str_to_int-decimal : (errno v : ℕ) → v < 2 ^ 31 → str_to_int errno (decimal v) ≡ (pos v, 0)
unfolding str_to_int strtol to_int starts_with_digit
str_to_int-decimal errno v fits =
    rw (← append-nil (decimal v)) (rw (scan_number-decimal v [] refl) (ground arith))

scan_number-minus :
    (n : ℕ) → scan_number (b'-' ∷ decimal n) ≡ record { negative = true; magnitude = n; rest = [] }
unfolding scan_number skip_spaces read_sign starts_with_digit
scan_number-minus n =
    rw (← append-nil (decimal n)) (rw (decimal-starts n [], read_digits-decimal n [] refl) refl)

-- `str_to_int(str(v))` for every `int`.
pub str_to_int-str_int :
    (errno : ℕ) (z : ℤ)
    → pos_part z < 2 ^ 31
    → neg_part z ≤ 2 ^ 31
    → (str_to_int errno (str_int z)).0 ≡ z
unfolding str_to_int str_int strtol to_int
str_to_int-str_int errno (pos n) h k = ap (λ r. r.0) (str_to_int-decimal errno n h)
str_to_int-str_int errno (negsuc n) h k = rw (scan_number-minus (suc n)) (ground arith)

starts-cons :
    (t : ByteString)
    → starts_with_digit t ≡ true
    → (c : ℕ) × (s : ByteString) × (t ≡ c ∷ s) × (is_digit c ≡ true)
unfolding starts_with_digit
starts-cons [] h = absurd (ground arith)
starts-cons (c ∷ s) h = (c, s, refl, h)

-- A decimal print begins with a digit.
pub decimal-cons : (n : ℕ) → (c : ℕ) × (s : ByteString) × (decimal n ≡ c ∷ s) × (is_digit c ≡ true)
decimal-cons n = starts-cons (decimal n) (rw append-nil at (decimal-starts n []))
