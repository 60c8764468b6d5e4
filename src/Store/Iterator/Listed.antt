-- ===== src/Store/Iterator/Listed.antt =====
-- How many keys of a finite database are left behind a key.
use model_lib.Prelude.{
  ℕ, ◌+◌, ◌≤◌, ◌<◌, ◌≡◌, ◌≢◌, ◌⊎◌, inl, inr, none, Option, List, [], ◌∷◌, arith, length,
}
use Prim.Native.Nat.{Ordering}
use model_lib.Prelude.Text.{ByteString}
use model_lib.Util.Bytes.{compare_bytes}
use model_lib.Util.Bytes.Order.{compare_bytes_order, compare_bytes_trans}
use model_lib.Store.Cursor.{Before}

abbrev pub Occurs : ByteString → List ByteString → Type 0
Occurs k [] = ⊥
Occurs k (x ∷ xs) = (x ≡ k) ⊎ Occurs k xs

-- Every key that has a value stands in the list.
abbrev pub IsListed : (ByteString → Option ByteString) → List ByteString → Type 0
IsListed read all = (k : ByteString) → read k ≢ none → Occurs k all

abbrev one_behind : ByteString → ByteString → ℕ
one_behind start k = elim (compare_bytes start k) [ Ordering.lt ↦ 1 | _ ↦ 0 ]

-- How many keys of the list are behind `start`.
abbrev pub behind : List ByteString → ByteString → ℕ
behind [] start = 0
behind (x ∷ xs) start = one_behind start x + behind xs start

pub behind-le_length : (all : List ByteString) (start : ByteString) → behind all start ≤ length all
behind-le_length [] start = omega arith
behind-le_length (x ∷ xs) start = ground (arith, behind-le_length xs start)

one_behind-le : (a b k : ByteString) → Before a b → one_behind b k ≤ one_behind a k
one_behind-le a b k h = ground (arith, compare_bytes_trans a b k h)

behind-le : (all : List ByteString) (a b : ByteString) → Before a b → behind all b ≤ behind all a
behind-le [] a b h = omega arith
behind-le (x ∷ xs) a b h = omega (arith, behind-le xs a b h, one_behind-le a b x h)

-- Behind a key of the list there are fewer than before it.
pub behind-lt :
    (all : List ByteString) (a b : ByteString)
    → Before a b
    → Occurs b all
    → behind all b < behind all a
behind-lt [] a b h o = absurd o
behind-lt (x ∷ xs) a b h (inl e) = ground (arith, behind-le xs a b h, h, e, compare_bytes_order b b)
behind-lt (x ∷ xs) a b h (inr o) = omega (arith, behind-lt xs a b h o, one_behind-le a b x h)
