-- ===== src/Util/Number.antt =====
-- Number conversion of ssdb/src/util/strings.h (`str`, `str_to_int`, `str_to_int64`,
-- `str_to_uint64`), over the C library's `snprintf`, `strtol`, `strtoull` and `atoi`.
pub mod RoundTrip
pub mod Digits
use model_lib.Prelude.{
  ℕ, zero, suc, ◌+◌, ◌-◌, ◌*◌, ◌/◌, ◌%◌, ◌^◌, Bool, true, false, ◌&&◌, ◌||◌, not, [], ◌∷◌, ◌++◌,
  ltb, leb, ◌==◌, if◌then◌else◌, length,
}
use model_lib.Prelude.Int.{ℤ, pos, negsuc, to_word, signed}
use model_lib.Prelude.Text.{ByteString}

unfoldable pub is_digit : ℕ → Bool
is_digit c = leb b'0' c && leb c b'9'

-- `isspace` in the C locale.
pub is_space : ℕ → Bool
is_space c = c == b' ' || (leb 9 c && leb c 13)

-- The decimal digits of `n` in front of `out`; `f + 1` rounds are enough for `n ≤ f`.
pub digits_from : ℕ → ℕ → ByteString → ByteString
digits_from zero n out = out
digits_from (suc f) n out =
    let more = digits_from f (n / 10) ((b'0' + n % 10) ∷ out) in
    if ltb n 10 then (b'0' + n) ∷ out else more

-- `snprintf` with %d, %ld or %lu of a value that is not negative.
unfoldable pub decimal : ℕ → ByteString
unfolding digits_from
decimal n = digits_from (suc n) n []

-- `str(int)` and `str(int64_t)`.
unfoldable pub str_int : ℤ → ByteString
str_int (pos n) = decimal n
str_int (negsuc n) = b'-' ∷ decimal (suc n)

-- `str(uint64_t)`.
unfoldable pub str_uint64 : ℕ → ByteString
str_uint64 v = decimal v

unfoldable pub skip_spaces : ByteString → ByteString
unfolding is_space
skip_spaces [] = []
skip_spaces (c ∷ s) = if is_space c then skip_spaces s else c ∷ s

-- The value of the digits that `s` begins with, behind `n`, and what follows them.
unfoldable pub read_digits : ℕ → ByteString → ℕ × ByteString
unfolding is_digit
read_digits n [] = (n, [])
read_digits n (c ∷ s) = if is_digit c then read_digits (n * 10 + (c - b'0')) s else (n, c ∷ s)

unfoldable pub starts_with_digit : ByteString → Bool
unfolding is_digit
starts_with_digit [] = false
starts_with_digit (c ∷ s) = is_digit c

-- The sign, and what follows it.
unfoldable pub read_sign : ByteString → Bool × ByteString
read_sign [] = (false, [])
read_sign (c ∷ s) =
    if c == b'-' then (true, s) else if c == b'+' then (false, s) else (false, c ∷ s)

pub record Scan : Type 0 where
  pub negative : Bool
  pub magnitude : ℕ
  pub rest : ByteString

-- What `strtol` and its kin read in base 10. Where no digit follows nothing is consumed.
unfoldable pub scan_number : ByteString → Scan
scan_number s =
    let (neg, t) = read_sign (skip_spaces s) in
    let (n, rest) = read_digits 0 t in
    if starts_with_digit t
    then record { negative = neg; magnitude = n; rest = rest }
    else record { negative = false; magnitude = 0; rest = s }

abbrev pub long_max : ℕ
long_max = 2 ^ 63 - 1

abbrev pub ulong_max : ℕ
ulong_max = 2 ^ 64 - 1

-- `strtol` saturates at LONG_MIN and LONG_MAX.
abbrev pub clamp_long : Bool → ℕ → ℤ
clamp_long true zero = pos 0
clamp_long true (suc n) = if ltb long_max n then negsuc long_max else negsuc n
clamp_long false n = if ltb long_max n then pos long_max else pos n

unfoldable pub strtol : ByteString → ℤ
strtol s = let r = scan_number s in clamp_long r.negative r.magnitude

-- The conversion of a `long` to an `int` keeps the low 32 bits.
unfoldable pub to_int : ℤ → ℤ
to_int z = signed (2 ^ 32) (to_word (2 ^ 32) z)

-- `strtoull` negates modulo 2 ^ 64, and saturates at ULLONG_MAX.
unfoldable pub strtoull : ByteString → ℕ
strtoull s =
    let r = scan_number s in
    if ltb ulong_max r.magnitude
    then ulong_max
    else if r.negative
    then (2 ^ 64 - r.magnitude) % 2 ^ 64
    else r.magnitude

-- `atoi`.
unfoldable pub atoi : ByteString → ℤ
atoi s = to_int (strtol s)

abbrev pub erange : ℕ
erange = 34

abbrev pub einval : ℕ
einval = 22

-- `errno` after `strtol`: ERANGE where the value saturates, else as it was.
abbrev pub long_errno : Scan → ℕ → ℕ
long_errno r errno =
    if r.negative
    then (if ltb (suc long_max) r.magnitude then erange else errno)
    else if ltb long_max r.magnitude
    then erange
    else errno

abbrev pub ulong_errno : Scan → ℕ → ℕ
ulong_errno r errno = if ltb ulong_max r.magnitude then erange else errno

-- The tail of every `str_to_xx`: `errno` is 0 if the whole string was consumed.
abbrev pub whole_errno : ByteString → ℕ → ℕ
whole_errno [] errno = 0
whole_errno (c ∷ s) errno = if errno == 0 then einval else errno

-- Each returns its value and `errno`, and takes the `errno` from before the call.
unfoldable pub str_to_int : ℕ → ByteString → ℤ × ℕ
str_to_int errno s =
    let r = scan_number s in (to_int (strtol s), whole_errno r.rest (long_errno r errno))

unfoldable pub str_to_int64 : ℕ → ByteString → ℤ × ℕ
str_to_int64 errno s = let r = scan_number s in (strtol s, whole_errno r.rest (long_errno r errno))

unfoldable pub str_to_uint64 : ℕ → ByteString → ℕ × ℕ
str_to_uint64 errno s =
    let r = scan_number s in (strtoull s, whole_errno r.rest (ulong_errno r errno))
