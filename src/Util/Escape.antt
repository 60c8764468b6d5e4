-- ===== src/Util/Escape.antt =====
-- `str_escape`, `hex_int` and `str_unescape` of ssdb/src/util/strings.h. A `char` is its byte.
pub mod RoundTrip
use model_lib.Prelude.{
  ℕ, ◌+◌, ◌-◌, ◌*◌, ◌/◌, ◌%◌, Option, none, some, ◌&&◌, [], ◌∷◌, ◌++◌, leb, ltb, ◌==◌,
  if◌then◌else◌, get_or, ◌≡◌, refl,
}
use model_lib.Prelude.Text.{ByteString, codes}

abbrev pub hex : ByteString
hex = codes "0123456789abcdef"

-- What one round of the loop of `str_escape` appends. A byte above 127 is a negative `char`.
unfoldable pub escape_char : ℕ → ByteString
escape_char c =
    if c == 13
    then b'\\' ∷ b'r' ∷ []
    else if c == 10
    then b'\\' ∷ b'n' ∷ []
    else if c == 9
    then b'\\' ∷ b't' ∷ []
    else if c == b'\\'
    then b'\\' ∷ b'\\' ∷ []
    else if c == b' '
    then c ∷ []
    else if leb b'!' c && leb c b'~'
    then c ∷ []
    else b'\\' ∷ b'x' ∷ get_or hex (c / 16) 0 ∷ get_or hex (c % 16) 0 ∷ []

unfoldable pub str_escape : ByteString → ByteString
str_escape [] = []
str_escape (c ∷ s) = escape_char c ++ str_escape s

-- Modulo 256, as the sum that it enters is cut to a `char`.
unfoldable pub hex_int : ℕ → ℕ
hex_int c = if leb b'0' c && leb c b'9' then c - b'0' else (c + 256 - b'a' + 10) % 256

unfoldable pub hex_byte : ℕ → ℕ → ℕ
unfolding hex_int
hex_byte hi lo = (hex_int hi * 16 + hex_int lo) % 256

-- The byte that `\c` stands for; `none` for `\x`, which two hex digits follow.
unfoldable pub unescape_char : ℕ → Option ℕ
unescape_char c =
    if c == b'a'
    then some 7
    else if c == b'b'
    then some 8
    else if c == b'f'
    then some 12
    else if c == b'v'
    then some 11
    else if c == b'r'
    then some 13
    else if c == b'n'
    then some 10
    else if c == b't'
    then some 9
    else if c == b'\\'
    then some b'\\'
    else if c == b'x'
    then none
    else some c

abbrev push_if_some : Option ℕ → ByteString → ByteString → ByteString
push_if_some none s t = t
push_if_some (some b) s t = b ∷ s

-- A `\` at the end is dropped. A `\x` with fewer than two bytes behind it is dropped.
unfoldable pub str_unescape : ByteString → ByteString
str_unescape [] = []
str_unescape (c ∷ []) = if c == b'\\' then [] else c ∷ []
str_unescape (c ∷ c2 ∷ []) =
    let copy = c ∷ str_unescape (c2 ∷ []) in
    if c == b'\\' then push_if_some (unescape_char c2) [] [] else copy
str_unescape (c ∷ c2 ∷ c3 ∷ []) =
    let copy = c ∷ str_unescape (c2 ∷ c3 ∷ []) in
    let tail = str_unescape (c3 ∷ []) in
    if c == b'\\' then push_if_some (unescape_char c2) tail tail else copy
str_unescape (c ∷ c2 ∷ c3 ∷ c4 ∷ s) =
    let copy = c ∷ str_unescape (c2 ∷ c3 ∷ c4 ∷ s) in
    let tail = str_unescape (c3 ∷ c4 ∷ s) in
    let after = hex_byte c3 c4 ∷ str_unescape s in
    if c == b'\\' then push_if_some (unescape_char c2) tail after else copy
