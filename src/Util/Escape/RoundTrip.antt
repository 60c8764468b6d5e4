-- ===== src/Util/Escape/RoundTrip.antt =====
-- `str_unescape` undoes `str_escape`, whose output is printable ASCII.
use model_lib.Prelude.{
  ℕ, zero, suc, ◌≤◌, ◌<◌, ◌/◌, ◌%◌, Bool, true, false, if◌then◌else◌, ◌+◌, ◌≡◌, ◌≢◌, refl, ap, ◌∙◌,
  [], ◌∷◌, ◌++◌, arith, ◌&&◌, ◌==◌, leb, All, All-append, some, ==_iff, get_or,
}
use model_lib.Prelude.Text.{ByteString, AreBytes}
use model_lib.Util.Escape.{hex, escape_char, str_escape, hex_byte, unescape_char, str_unescape}

unescape_copy : (c : ℕ) (s : ByteString) → c ≢ b'\\' → str_unescape (c ∷ s) ≡ c ∷ str_unescape s
unfolding str_unescape
unescape_copy c [] h = ground arith
unescape_copy c (c2 ∷ []) h = ground arith
unescape_copy c (c2 ∷ c3 ∷ []) h = ground arith
unescape_copy c (c2 ∷ c3 ∷ c4 ∷ s) h = ground arith

unescape_simple :
    (c b : ℕ) (s : ByteString)
    → unescape_char c ≡ some b
    → str_unescape (b'\\' ∷ c ∷ s) ≡ b ∷ str_unescape s
unfolding str_unescape
unescape_simple c b [] h = ground arith
unescape_simple c b (c3 ∷ []) h = ground arith
unescape_simple c b (c3 ∷ c4 ∷ s) h = ground arith

-- `p` at the `count` bytes from `c` on.
module _ (p : ℕ → Bool) where
  holds_from : ℕ → ℕ → Bool
  holds_from c zero = true
  holds_from c (suc count) = if p c then holds_from (suc c) count else false

  holds_from-at : (count c x : ℕ) → c ≤ x → x < c + count → holds_from c count ≡ true → p x ≡ true
  unfolding holds_from
  holds_from-at zero c x low high h = absurd (omega arith)
  holds_from-at (suc count) c x low high h = ground (arith, holds_from-at count (suc c) x)

-- Every byte is read back from its two hex digits.
hex_table :
    holds_from (λ c. hex_byte (get_or hex (c / 16) 0) (get_or hex (c % 16) 0) == c) 0 256 ≡ true
unfolding holds_from hex_byte
hex_table = refl

hex_byte-hex : (c : ℕ) → c < 256 → hex_byte (get_or hex (c / 16) 0) (get_or hex (c % 16) 0) ≡ c
hex_byte-hex c h = (==_iff _ c).0 (holds_from-at _ 256 0 c (omega arith) h hex_table)

unescape_hex :
    (c : ℕ) (s : ByteString)
    → c < 256
    → str_unescape (b'\\' ∷ b'x' ∷ get_or hex (c / 16) 0 ∷ get_or hex (c % 16) 0 ∷ s)
      ≡ c ∷ str_unescape s
unfolding str_unescape unescape_char
unescape_hex c s h = ap (λ b. b ∷ str_unescape s) (hex_byte-hex c h)

-- One round of `str_escape` is undone, whatever follows.
unescape-escape_char :
    (c : ℕ) (s : ByteString) → c < 256 → str_unescape (escape_char c ++ s) ≡ c ∷ str_unescape s
unfolding escape_char unescape_char
unescape-escape_char c s h = ground (
  arith,
  unescape_simple b'r' 13 s,
  unescape_simple b'n' 10 s,
  unescape_simple b't' 9 s,
  unescape_simple b'\\' b'\\' s,
  unescape_copy c s,
  unescape_hex c s,
)

-- `str_unescape` undoes `str_escape` on every string of bytes.
pub unescape-escape : (s : ByteString) → AreBytes s → str_unescape (str_escape s) ≡ s
unfolding str_escape
unescape-escape [] h = unfold str_unescape in refl
unescape-escape (c ∷ s) (hc, hs) =
    unescape-escape_char c (str_escape s) hc ∙ ap (λ t. c ∷ t) (unescape-escape s hs)

abbrev pub IsPrintable : ℕ → Type 0
IsPrintable c = (b' ' ≤ c) × (c ≤ b'~')

printable_table :
    holds_from (λ d. leb b' ' (get_or hex d 0) && leb (get_or hex d 0) b'~') 0 16 ≡ true
unfolding holds_from
printable_table = refl

hex-IsPrintable : (d : ℕ) → d < 16 → IsPrintable (get_or hex d 0)
hex-IsPrintable d h = ground (arith, holds_from-at _ 16 0 d (omega arith) h printable_table)

escape_char-IsPrintable : (c : ℕ) → c < 256 → All IsPrintable (escape_char c)
unfolding escape_char
escape_char-IsPrintable c h = ground (arith, hex-IsPrintable (c / 16), hex-IsPrintable (c % 16))

-- Every byte of an escaped string is printable ASCII, so the string stays on one line of a log.
pub str_escape-IsPrintable : (s : ByteString) → AreBytes s → All IsPrintable (str_escape s)
unfolding str_escape
str_escape-IsPrintable [] h = tt
str_escape-IsPrintable (c ∷ s) (hc, hs) =
    All-append IsPrintable (escape_char c) (str_escape s) (escape_char-IsPrintable c hc)
      (str_escape-IsPrintable s hs)
