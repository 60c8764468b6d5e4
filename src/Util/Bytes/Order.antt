-- ===== src/Util/Bytes/Order.antt =====
-- `compare_bytes` is the lexicographic order.
use Prim.Native.Nat.{compare, Ordering}
use model_lib.Prelude.{
  ◌↔◌, ◌^◌, subst, length-append, ℕ, zero, suc, ◌/◌, ◌%◌, ◌<◌, ◌≡◌, refl, ◌∙◌, sym, [], ◌∷◌, ◌++◌,
  arith, length,
}
use native.Mathlib.Nat.{pow-suc}
use model_lib.Prelude.Text.{ByteString}
use model_lib.Util.Bytes.{compare_bytes}
use model_lib.Util.Endian.{be_bytes}

-- First difference first; a prefix is smaller.
unfoldable pub lex : ByteString → ByteString → Ordering
lex [] [] = Ordering.eq
lex [] (d ∷ b) = Ordering.lt
lex (c ∷ a) [] = Ordering.gt
lex (c ∷ a) (d ∷ b) = elim (compare c d) [
  | Ordering.eq ↦ lex a b
  | Ordering.lt ↦ Ordering.lt
  | Ordering.gt ↦ Ordering.gt
]

pub compare_bytes-lex : (a b : ByteString) → compare_bytes a b ≡ lex a b
unfolding compare_bytes lex
compare_bytes-lex [] [] = refl
compare_bytes-lex [] (d ∷ b) = ground arith
compare_bytes-lex (c ∷ a) [] = ground arith
compare_bytes-lex (c ∷ a) (d ∷ b) = ground (arith, compare_bytes-lex a b)

abbrev pub flip : Ordering → Ordering
flip Ordering.lt = Ordering.gt
flip Ordering.eq = Ordering.eq
flip Ordering.gt = Ordering.lt

lex-flip : (a b : ByteString) → lex b a ≡ flip (lex a b)
unfolding lex
lex-flip [] [] = refl
lex-flip [] (d ∷ b) = refl
lex-flip (c ∷ a) [] = refl
lex-flip (c ∷ a) (d ∷ b) = ground (arith, lex-flip a b)

lex_refl : (a : ByteString) → lex a a ≡ Ordering.eq
unfolding lex
lex_refl [] = refl
lex_refl (c ∷ a) = ground (arith, lex_refl a)

lex-eq : (a b : ByteString) → lex a b ≡ Ordering.eq → a ≡ b
unfolding lex
lex-eq [] [] h = refl
lex-eq [] (d ∷ b) h = ground arith
lex-eq (c ∷ a) [] h = ground arith
lex-eq (c ∷ a) (d ∷ b) h = ground (arith, lex-eq a b)

lex_trans :
    (a b c : ByteString) → lex a b ≡ Ordering.lt → lex b c ≡ Ordering.lt → lex a c ≡ Ordering.lt
unfolding lex
lex_trans [] [] c h k = ground arith
lex_trans [] (y ∷ b) [] h k = ground arith
lex_trans [] (y ∷ b) (z ∷ c) h k = refl
lex_trans (x ∷ a) [] c h k = ground arith
lex_trans (x ∷ a) (y ∷ b) [] h k = ground arith
lex_trans (x ∷ a) (y ∷ b) (z ∷ c) h k = ground (arith, lex_trans a b c)

-- `Bytes::compare` gives 0 exactly for equal strings, and changes its sign when the sides are
-- exchanged.
pub compare_bytes_order :
    (a b : ByteString)
    → ((compare_bytes a b ≡ Ordering.eq) ↔ (a ≡ b)) × (compare_bytes b a ≡ flip (compare_bytes a b))
compare_bytes_order a b =
    rw (compare_bytes-lex a b, compare_bytes-lex b a)
      ((lex-eq a b, λ e. subst (λ t. lex a t ≡ Ordering.eq) e (lex_refl a)), lex-flip a b)

-- Being smaller under `Bytes::compare` is transitive.
pub compare_bytes_trans :
    (a b c : ByteString)
    → compare_bytes a b ≡ Ordering.lt
    → compare_bytes b c ≡ Ordering.lt
    → compare_bytes a c ≡ Ordering.lt
compare_bytes_trans a b c h k =
    compare_bytes-lex a c
    ∙ lex_trans a b c (sym (compare_bytes-lex a b) ∙ h) (sym (compare_bytes-lex b c) ∙ k)

lex-snoc :
    (a b : ByteString) (x y : ℕ)
    → length a ≡ length b
    → lex (a ++ x ∷ []) (b ++ y ∷ []) ≡ elim (lex a b) [
      | Ordering.eq ↦ compare x y
      | Ordering.lt ↦ Ordering.lt
      | Ordering.gt ↦ Ordering.gt
    ]
unfolding lex
lex-snoc [] [] x y h = ground arith
lex-snoc [] (d ∷ b) x y h = absurd (omega arith)
lex-snoc (c ∷ a) [] x y h = absurd (omega arith)
lex-snoc (c ∷ a) (d ∷ b) x y h = ground (arith, lex-snoc a b x y)

length-be_bytes : (n v : ℕ) → length (be_bytes n v) ≡ n
unfolding be_bytes
length-be_bytes zero v = refl
length-be_bytes (suc n) v =
    omega
      (arith, length-append {0} (be_bytes n (v / 256)) (v % 256 ∷ []), length-be_bytes n (v / 256))

-- Words with the highest byte first are ordered as their bytes are.
pub lex-be_bytes :
    (n a b : ℕ) → a < 256 ^ n → b < 256 ^ n → lex (be_bytes n a) (be_bytes n b) ≡ compare a b
unfolding be_bytes
lex-be_bytes zero a b h k = unfold lex in ground arith
lex-be_bytes (suc n) a b h k =
    let p = pow-suc 256 n in
    let ih = lex-be_bytes n (a / 256) (b / 256) (omega arith) (omega arith) in
    lex-snoc (be_bytes n (a / 256)) (be_bytes n (b / 256)) (a % 256) (b % 256)
      (length-be_bytes n (a / 256) ∙ sym (length-be_bytes n (b / 256)))
    ∙ rw ih (ground arith)
