-- ===== src/Tests/Util.antt =====
-- Tests of ssdb/src/util.
use model_lib.Prelude.{◌≡◌, refl, [], ◌∷◌, arith}
use model_lib.Prelude.Text.{codes}
use model_lib.Util.Number.{str_uint64, str_to_uint64}
use model_lib.Util.Number.RoundTrip.{str_to_uint64-str_uint64}
use model_lib.Util.Escape.{str_escape, str_unescape, escape_char}
use model_lib.Util.Escape.RoundTrip.{unescape-escape}
use model_lib.Util.Endian.{big_endian64, big_endian32}

str_to_uint64-str_uint64_example :
    str_to_uint64 5 (str_uint64 18446744073709551615) ≡ (18446744073709551615, 0)
str_to_uint64-str_uint64_example = str_to_uint64-str_uint64 5 18446744073709551615 (omega arith)

unescape-escape_example :
    str_unescape (str_escape (b'a' ∷ 10 ∷ b'\\' ∷ 200 ∷ [])) ≡ b'a' ∷ 10 ∷ b'\\' ∷ 200 ∷ []
unescape-escape_example = unescape-escape (b'a' ∷ 10 ∷ b'\\' ∷ 200 ∷ []) (omega arith)

escapes : str_escape (b'a' ∷ 10 ∷ 200 ∷ []) ≡ codes "a\\n\\xc8"
unfolding str_escape escape_char
escapes = refl

swaps : big_endian64 0x0102030405060708 ≡ 0x0807060504030201
unfolding big_endian64 big_endian32
swaps = refl
