-- ===== src/Net/Redis/Convert/Ranges.antt =====
-- Ranges and options of sorted sets: what the SSDB arguments mean.
use model_lib.Prelude.{
  ℕ, ◌+◌, ◌-◌, ◌^◌, ◌≤◌, ◌<◌, ◌≡◌, refl, ap, sym, ◌∙◌, Bool, true, false, List, [], ◌∷◌, arith,
}
use model_lib.Prelude.Int.{ℤ, pos, negsuc, pos_part, neg_part, ◌+ℤ◌, ◌-ℤ◌}
use model_lib.Prelude.Text.{ByteString, codes, str_eq}
use model_lib.Util.Number.{decimal, str_int, to_int}
use model_lib.Util.Number.RoundTrip.{str_to_int64-decimal, str_to_int-str_int}
use model_lib.Net.Redis.Convert.{
  range_args, range_size, score_bound, score_args, score_request, read_options, take_limit,
  take_keyword, Options, no_options, no_limit,
}
use model_lib.Util.Case.{strtolower}

range_size-pos : (a b : ℕ) → a ≤ b → b < 2 ^ 63 - 1 → range_size (pos a) (pos b) ≡ pos (b - a + 1)
unfolding range_size
range_size-pos a b h fits = ground arith

-- ZRANGE from `a` to `b`, both included, asks SSDB for `b - a + 1` members from offset `a`, if
-- `b` is below the largest int64_t.
pub range_args-decimal :
    (name : ByteString) (a b : ℕ)
    → a ≤ b
    → b < 2 ^ 63 - 1
    → range_args name (decimal a) (decimal b) ≡ name ∷ decimal a ∷ decimal (b - a + 1) ∷ []
unfolding range_args str_int
range_args-decimal name a b h fits =
    ground (arith, str_to_int64-decimal 0 a, str_to_int64-decimal 0 b, range_size-pos a b)

-- An `int` stays one when it is cut to 32 bits.
to_int-id : (z : ℤ) → pos_part z < 2 ^ 31 → neg_part z ≤ 2 ^ 31 → to_int z ≡ z
unfolding to_int
to_int-id (pos n) h k = ground arith
to_int-id (negsuc n) h k = ground arith

-- An `int`, as the bounds of a range of scores.
abbrev pub IsInt : ℤ → Type 0
IsInt z = (pos_part z < 2 ^ 31) × (neg_part z ≤ 2 ^ 31)

score_bound-exclusive_up :
    (z : ℤ)
    → IsInt z
    → IsInt (z +ℤ pos 1)
    → score_bound true (b'(' ∷ str_int z) ≡ str_int (z +ℤ pos 1)
unfolding score_bound str_eq
score_bound-exclusive_up z (a, b) (c, d) =
    rw (str_to_int-str_int 0 z a b, to_int-id (z +ℤ pos 1) c d) refl

score_bound-exclusive_down :
    (z : ℤ)
    → IsInt z
    → IsInt (z -ℤ pos 1)
    → score_bound false (b'(' ∷ str_int z) ≡ str_int (z -ℤ pos 1)
unfolding score_bound str_eq
score_bound-exclusive_down z (a, b) (c, d) =
    rw (str_to_int-str_int 0 z a b, to_int-id (z -ℤ pos 1) c d) refl

take_keyword-limit :
    (o : Options) → take_keyword o (codes "limit") ≡ record o { after_limit = true }
unfolding take_keyword str_eq
take_keyword-limit o = refl

take_keyword-withscores :
    (o : Options)
    → take_keyword o (codes "withscores") ≡ record o { withscores = codes "withscores" }
unfolding take_keyword str_eq
take_keyword-withscores o = refl

-- `s` is no keyword.
abbrev pub IsPlain : ByteString → Type 0
IsPlain s =
    (str_eq (strtolower s) (codes "withscores") ≡ false)
    × (str_eq (strtolower s) (codes "limit") ≡ false)

take_keyword-plain : (o : Options) (s : ByteString) → IsPlain s → take_keyword o (strtolower s) ≡ o
unfolding take_keyword
take_keyword-plain o s (h, k) = rw (h, k)

-- After LIMIT, a plain offset and a plain count.
read_options-limit :
    (w limit offset count : ByteString) (rest : List ByteString)
    → strtolower limit ≡ codes "limit"
    → str_eq offset [] ≡ false
    → IsPlain offset
    → IsPlain count
    → read_options (record no_options { withscores = w }) (limit ∷ offset ∷ count ∷ rest)
      ≡ read_options
          (record { after_limit = false; offset = offset; count = count; withscores = w })
          rest
unfolding read_options
read_options-limit w limit offset count rest hl ho po pc =
    rw (hl, take_keyword-limit, take_keyword-plain _ offset po, take_keyword-plain _ count pc)
      (unfold take_limit str_eq in rw ho)

read_options-withscores :
    (o c w withscores : ByteString) (rest : List ByteString)
    → strtolower withscores ≡ codes "withscores"
    → read_options
        (record { after_limit = false; offset = o; count = c; withscores = w })
        (withscores ∷ rest)
      ≡ read_options
          (record { after_limit = false; offset = o; count = c; withscores = codes "withscores" })
          rest
unfolding read_options
read_options-withscores o c w withscores rest h =
    rw (h, take_keyword-withscores) (unfold take_limit in refl)

options_comm :
    (limit offset count withscores : ByteString)
    → strtolower limit ≡ codes "limit"
    → strtolower withscores ≡ codes "withscores"
    → str_eq offset [] ≡ false
    → IsPlain offset
    → IsPlain count
    → read_options no_options (withscores ∷ limit ∷ offset ∷ count ∷ [])
      ≡ read_options no_options (limit ∷ offset ∷ count ∷ withscores ∷ [])
options_comm limit offset count withscores hl hw ho po pc =
    read_options-withscores [] [] [] withscores (limit ∷ offset ∷ count ∷ []) hw
    ∙ read_options-limit (codes "withscores") limit offset count [] hl ho po pc
    ∙ sym (
        read_options-limit [] limit offset count (withscores ∷ []) hl ho po pc
        ∙ read_options-withscores offset count [] withscores [] hw)

-- Open score bounds become closed ones on the integers: ZRANGEBYSCORE and ZREVRANGEBYSCORE with
-- `(lo` and `(hi` ask for the scores from lo + 1 to hi - 1, in their order, from offset 0 and
-- with no limit. The bounds, of either sign, and the closed ones fit an `int`.
pub score_args-exclusive :
    (name : ByteString) (lo hi : ℤ)
    → IsInt lo
    → IsInt (lo +ℤ pos 1)
    → IsInt hi
    → IsInt (hi -ℤ pos 1)
    → (score_args true (name ∷ (b'(' ∷ str_int lo) ∷ (b'(' ∷ str_int hi) ∷ [])
        ≡ name
          ∷ []
          ∷ str_int (lo +ℤ pos 1)
          ∷ str_int (hi -ℤ pos 1)
          ∷ codes "0"
          ∷ no_limit
          ∷ []
          ∷ [])
      × (score_args false (name ∷ (b'(' ∷ str_int hi) ∷ (b'(' ∷ str_int lo) ∷ [])
          ≡ name
            ∷ []
            ∷ str_int (hi -ℤ pos 1)
            ∷ str_int (lo +ℤ pos 1)
            ∷ codes "0"
            ∷ no_limit
            ∷ []
            ∷ [])
unfolding score_args score_request read_options str_eq
score_args-exclusive name lo hi a b c d =
    rw (score_bound-exclusive_up lo a b, score_bound-exclusive_down hi c d) (refl, refl)

-- LIMIT and WITHSCORES may stand in either order, in any case of letters: if the offset and the
-- count are not empty and are no keywords, the SSDB request is the same.
pub score_args-options_comm :
    (up : Bool) (name smin smax limit offset count withscores : ByteString)
    → strtolower limit ≡ codes "limit"
    → strtolower withscores ≡ codes "withscores"
    → str_eq offset [] ≡ false
    → IsPlain offset
    → IsPlain count
    → score_args up (name ∷ smin ∷ smax ∷ withscores ∷ limit ∷ offset ∷ count ∷ [])
      ≡ score_args up (name ∷ smin ∷ smax ∷ limit ∷ offset ∷ count ∷ withscores ∷ [])
unfolding score_args
score_args-options_comm up name smin smax limit offset count withscores hl hw ho po pc =
    ap (λ o. score_request up name smin smax o)
      (options_comm limit offset count withscores hl hw ho po pc)
