-- ===== src/Util/Case.antt =====
-- `strtolower` and `strtoupper` of ssdb/src/util/strings.h, in the C locale.
use model_lib.Prelude.{ℕ, ◌+◌, ◌-◌, ◌&&◌, ◌≡◌, refl, [], ◌∷◌, arith, leb, if◌then◌else◌}
use model_lib.Prelude.Text.{ByteString}
use mathlib.Core.List.{map}

unfoldable pub tolower : ℕ → ℕ
tolower c = if leb b'A' c && leb c b'Z' then c + 32 else c

unfoldable pub toupper : ℕ → ℕ
toupper c = if leb b'a' c && leb c b'z' then c - 32 else c

unfoldable pub strtolower : ByteString → ByteString
unfolding tolower
strtolower s = map tolower s

unfoldable pub strtoupper : ByteString → ByteString
unfolding toupper
strtoupper s = map toupper s

tolower-tolower : (c : ℕ) → tolower (tolower c) ≡ tolower c
unfolding tolower
tolower-tolower c = ground arith

pub strtolower-strtolower : (s : ByteString) → strtolower (strtolower s) ≡ strtolower s
unfolding strtolower
strtolower-strtolower [] = refl
strtolower-strtolower (c ∷ s) = λ i. tolower-tolower c i ∷ strtolower-strtolower s i
