-- ===== src/Util/Bytes.antt =====
-- `Bytes::compare` and the operators of ssdb/src/util/bytes.h; `leveldb::Slice` compares alike.
pub mod Order
use Prim.Native.Nat.{compare, Ordering}
use model_lib.Prelude.{ℕ, zero, suc, Bool, true, false, [], ◌∷◌, ltb, if◌then◌else◌, length}
use model_lib.Prelude.Text.{ByteString}

-- `memcmp(a, b, n)`: negative, zero or positive.
unfoldable pub memcmp : ℕ → ByteString → ByteString → Ordering
memcmp zero a b = Ordering.eq
memcmp (suc n) [] b = Ordering.eq
memcmp (suc n) (c ∷ a) [] = Ordering.eq
memcmp (suc n) (c ∷ a) (d ∷ b) = elim (compare c d) [
  | Ordering.eq ↦ memcmp n a b
  | Ordering.lt ↦ Ordering.lt
  | Ordering.gt ↦ Ordering.gt
]

abbrev by_size : ByteString → ByteString → Ordering → Ordering
by_size a b Ordering.eq =
    if ltb (length a) (length b)
    then Ordering.lt
    else if ltb (length b) (length a)
    then Ordering.gt
    else Ordering.eq
by_size a b Ordering.lt = Ordering.lt
by_size a b Ordering.gt = Ordering.gt

unfoldable pub compare_bytes : ByteString → ByteString → Ordering
unfolding memcmp
compare_bytes a b =
    let min_len = if ltb (length a) (length b) then length a else length b in
    by_size a b (memcmp min_len a b)
