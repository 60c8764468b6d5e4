-- ===== src/Util/Buffer/Block.antt =====
-- Blocks of bytes in which some are written or appended.
use model_lib.Prelude.{
  ℕ, zero, suc, ◌+◌, ◌≤◌, ◌≡◌, refl, ap, subst, [], ◌∷◌, ◌++◌, arith, take, drop, length,
  take-length_append,
}
use model_lib.Prelude.Text.{ByteString}

-- Bytes put behind the first `n` are behind them.
take_extend :
    (n : ℕ) (block s t : ByteString)
    → n ≤ length block
    → take (n + length s) (take n block ++ (s ++ t)) ≡ take n block ++ s
take_extend zero block s t h =
    subst (λ k. take k (s ++ t) ≡ s) (omega arith) (take-length_append s t)
take_extend (suc n) [] s t h = absurd (omega arith)
take_extend (suc n) (x ∷ block) s t h =
    let shift : suc (n + length s) ≡ suc n + length s = omega arith in
    subst (λ k. take k (x ∷ (take n block ++ (s ++ t))) ≡ x ∷ (take n block ++ s)) shift
      (ap (λ u. x ∷ u) (take_extend n block s t (omega arith)))

pub take-drop_extend :
    (off n : ℕ) (block s t : ByteString)
    → off + n ≤ length block
    → take (n + length s) (drop off (take (off + n) block ++ (s ++ t)))
      ≡ take n (drop off block) ++ s
take-drop_extend zero n block s t h =
    subst (λ k. take (n + length s) (take k block ++ (s ++ t)) ≡ take n block ++ s) (omega arith)
      (take_extend n block s t (omega arith))
take-drop_extend (suc off) n [] s t h = absurd (omega arith)
take-drop_extend (suc off) n (x ∷ block) s t h =
    let shift : suc (off + n) ≡ suc off + n = omega arith in
    subst
      (λ k.
        take (n + length s) (drop (suc off) (take k (x ∷ block) ++ (s ++ t)))
        ≡ take n (drop off block) ++ s)
      shift (take-drop_extend off n block s t (omega arith))

-- A block that begins with the old one has the same data.
pub take-append_left :
    (n : ℕ) (block t : ByteString) → n ≤ length block → take n (block ++ t) ≡ take n block
take-append_left zero block t h = refl
take-append_left (suc n) [] t h = absurd (omega arith)
take-append_left (suc n) (x ∷ block) t h =
    ap (λ u. x ∷ u) (take-append_left n block t (omega arith))

pub take-drop-append_left :
    (off n : ℕ) (block t : ByteString)
    → off + n ≤ length block
    → take n (drop off (block ++ t)) ≡ take n (drop off block)
take-drop-append_left zero n block t h = take-append_left n block t (omega arith)
take-drop-append_left (suc off) n [] t h = absurd (omega arith)
take-drop-append_left (suc off) n (x ∷ block) t h =
    take-drop-append_left off n block t (omega arith)
