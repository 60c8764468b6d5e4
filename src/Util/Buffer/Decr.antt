-- ===== src/Util/Buffer/Decr.antt =====
-- Data taken off the front of a buffer: `decr` of ssdb/src/util/bytes.h.
use model_lib.Prelude.{
  ℕ, zero, suc, ◌+◌, ◌-◌, ◌≡◌, refl, ap, sym, ◌∙◌, [], ◌∷◌, ◌++◌, arith, length, length-append,
  length-take, length-drop, append_assoc, take, drop, take-append-drop, take-length_append,
  drop-length_append,
}
use model_lib.Prelude.Text.{ByteString}
use model_lib.Util.Buffer.{Buffer, content, decr}
use model_lib.Util.Buffer.Space.{IsValid}

pub drop-nil : (n : ℕ) → drop {A = ℕ} n [] ≡ []
drop-nil zero = refl
drop-nil (suc n) = refl

pub drop-add : (m n : ℕ) (xs : ByteString) → drop (n + m) xs ≡ drop m (drop n xs)
drop-add m zero xs = let e : zero + m ≡ m = omega arith in ap (λ k. drop k xs) e
drop-add m (suc n) [] = drop-nil (suc n + m) ∙ sym (drop-nil m)
drop-add m (suc n) (x ∷ xs) =
    let e : suc n + m ≡ suc (n + m) = omega arith in ap (λ k. drop k (x ∷ xs)) e ∙ drop-add m n xs

pub drop-exact : (n : ℕ) (xs ys : ByteString) → n ≡ length xs → drop n (xs ++ ys) ≡ ys
drop-exact n xs ys h = rw h (drop-length_append xs ys)

pub take-exact : (n : ℕ) (xs ys : ByteString) → n ≡ length xs → take n (xs ++ ys) ≡ xs
take-exact n xs ys h = rw h (take-length_append xs ys)

-- The data of a buffer, and the bytes behind them in its block.
pub content-split :
    (b : Buffer)
    → IsValid b
    → (length (content b) ≡ b.size)
      × (drop b.offset b.buf ≡ content b ++ drop b.size (drop b.offset b.buf))
content-split b v = (
  omega (
    arith,
    length-take b.size (drop b.offset b.buf),
    length-drop b.offset b.buf,
    v.inside,
    v.block,
  ),
  sym (take-append-drop b.size (drop b.offset b.buf)),
)

-- `decr` leaves what stands behind the bytes that it takes off.
pub decr-content :
    (b : Buffer) (n : ℕ) (front rest : ByteString)
    → IsValid b
    → content b ≡ front ++ rest
    → n ≡ length front
    → IsValid (decr b n) × (content (decr b n) ≡ rest)
unfolding decr
decr-content b n front rest v e h =
    let g = drop b.size (drop b.offset b.buf) in
    let (long, split) = content-split b v in
    let size : b.size ≡ n + length rest =
      omega (arith, long, ap length e, h, length-append front rest) in
    let whole : drop b.offset b.buf ≡ front ++ (rest ++ g) =
      split ∙ ap (λ c. c ++ g) e ∙ append_assoc front rest g in
    let left : drop (b.offset + n) b.buf ≡ rest ++ g =
      drop-add n b.offset b.buf ∙ ap (drop n) whole ∙ drop-exact n front (rest ++ g) h in
    (
      record { block = v.block; inside = omega (arith, v.inside, size); fits = v.fits },
      ap (take (b.size - n)) left ∙ take-exact (b.size - n) rest g (omega (arith, size)),
    )
