-- ===== src/Util/Trim.antt =====
-- `is_empty_str`, `ltrim`, `rtrim`, `trim` and `bitcount` of ssdb/src/util/strings.h. A C string is
-- its bytes up to the NUL; `isspace` is that of the C locale, where a byte above 127 is no space.
use model_lib.Prelude.{
  ℕ, zero, suc, sym, subst, ==_iff, ◌+◌, ◌*◌, ◌/◌, ◌%◌, ◌≤◌, ◌<◌, ◌≡◌, inl, inr, refl, Bool, true,
  false, ◌&&◌, ◌||◌, ◌==◌, leb, [], ◌∷◌, ◌++◌, if◌then◌else◌, take, length, get_or, arith,
  Bool-cases,
}
use model_lib.Prelude.Text.{ByteString}

abbrev isspace : ℕ → Bool
isspace c = c == 32 || leb 9 c && leb c 13

unfoldable is_empty_str : ByteString → Bool
is_empty_str [] = true
is_empty_str (c ∷ s) = if isspace c then is_empty_str s else false

-- The string from the pointer that is returned.
unfoldable ltrim : ByteString → ByteString
ltrim [] = []
ltrim (c ∷ s) = if isspace c then ltrim s else c ∷ s

-- The bytes in front of the end that is written, where `n` of them are not looked at yet.
unfoldable end_of : ByteString → ℕ → ℕ
end_of s zero = 0
end_of s (suc n) = if isspace (get_or s n 0) then end_of s n else suc n

-- The string as it is left; the pointer that is returned is its end.
unfoldable rtrim : ByteString → ByteString
rtrim s = take (end_of s (length s)) s

unfoldable trim : ByteString → ByteString
trim s = rtrim (ltrim s)

-- The bits of a byte that are set, for as many rounds as it has bits.
unfoldable bits : ℕ → ℕ → ℕ
bits zero c = 0
bits (suc rounds) c = c % 2 + bits rounds (c / 2)

-- The count is an `int`, which overflows from 2 ^ 28 bytes on; here it does not.
unfoldable bitcount : ByteString → ℕ
bitcount [] = 0
bitcount (c ∷ s) = bits 8 c + bitcount s

-- The bytes that `rtrim` drops are spaces.
end_of-spaces : (s : ByteString) (n i : ℕ) → end_of s n ≤ i → i < n → isspace (get_or s i 0) ≡ true
unfolding end_of
end_of-spaces s zero i h l = absurd (omega arith)
end_of-spaces s (suc n) i h l = elim (Bool-cases (isspace (get_or s n 0))) [
  | inl e ↦ elim (Bool-cases (i == n)) [
    | inl same ↦ subst (λ k. isspace (get_or s k 0) ≡ true) (sym ((==_iff i n).0 same)) e
    | inr other ↦ end_of-spaces s n i (rw (e, if◌then◌else◌) at h) (ground (arith, other, l))
  ]
  | inr e ↦ absurd (omega (arith, rw (e, if◌then◌else◌) at h, l))
]

-- What it keeps does not end in a space.
end_of-kept : (s : ByteString) (n m : ℕ) → end_of s n ≡ suc m → isspace (get_or s m 0) ≡ false
unfolding end_of
end_of-kept s zero m h = absurd (omega (arith, h))
end_of-kept s (suc n) m h = elim (Bool-cases (isspace (get_or s n 0))) [
  | inl e ↦ end_of-kept s n m (rw (e, if◌then◌else◌) at h)
  | inr e ↦
      let same : n ≡ m = omega (arith, rw (e, if◌then◌else◌) at h) in
      subst (λ k. isspace (get_or s k 0) ≡ false) same e
]

-- A string is empty in this sense when nothing of it is left.
is_empty_str-trim : (s : ByteString) → is_empty_str s ≡ true → trim s ≡ []
unfolding is_empty_str trim ltrim rtrim end_of
is_empty_str-trim [] h = refl
is_empty_str-trim (c ∷ s) h = elim (Bool-cases (isspace c)) [
  | inl e ↦ rw (e, if◌then◌else◌) (is_empty_str-trim s (rw (e, if◌then◌else◌) at h))
  | inr e ↦ cc (rw (e, if◌then◌else◌) at h)
]

-- A byte has no more bits set than there are rounds.
bits-le : (rounds c : ℕ) → bits rounds c ≤ rounds
unfolding bits
bits-le zero c = omega arith
bits-le (suc rounds) c = omega (arith, bits-le rounds (c / 2))

-- The bits of two strings are counted one by one.
bitcount-append : (s t : ByteString) → bitcount (s ++ t) ≡ bitcount s + bitcount t
unfolding bitcount
bitcount-append [] t = omega arith
bitcount-append (c ∷ s) t = omega (arith, bitcount-append s t)

-- At most eight bits for each byte are set.
bitcount-le : (s : ByteString) → bitcount s ≤ 8 * length s
unfolding bitcount
bitcount-le [] = omega arith
bitcount-le (c ∷ s) = omega (arith, bitcount-le s, bits-le 8 c)
