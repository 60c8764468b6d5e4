-- ===== src/Util/Thread/Family.antt =====
-- Values indexed by thread: a change at one index, and what the first `n` of them weigh together.
use native.Mathlib.Decide.{dec_lt, ℕ_discrete}
use mathlib.Core.Logic.{ite}
use model_lib.Prelude.{ℕ, zero, suc, ◌+◌, ◌≤◌, ◌<◌, ◌≡◌, ◌≢◌, refl, arith}

-- `f` with `a` in place of what it has at `i`.
abbrev pub put_at {ℓ} : {A : Type ℓ} → ℕ → A → (ℕ → A) → ℕ → A
put_at i a f j = ite (ℕ_discrete i j) a (f j)

module _ {ℓ} {A : Type ℓ} (weight : A → ℕ) where
  unfoldable pub sum : (ℕ → A) → ℕ → ℕ
  sum f zero = 0
  sum f (suc n) = weight (f n) + sum f n

  sum-put_at_beyond : (f : ℕ → A) (i n : ℕ) (a : A) → n ≤ i → sum (put_at i a f) n ≡ sum f n
  unfolding sum
  sum-put_at_beyond f i zero a h = refl
  sum-put_at_beyond f i (suc n) a h = ground (arith, sum-put_at_beyond f i n a)

  -- A change at `i` changes the sum by the difference of the weights.
  pub sum-put_at :
      (f : ℕ → A) (i n : ℕ) (a : A)
      → i < n
      → sum (put_at i a f) n + weight (f i) ≡ sum f n + weight a
  unfolding sum
  sum-put_at f i zero a h = absurd (omega arith)
  sum-put_at f i (suc n) a h = elim (dec_lt i n) [
    | yes lt ↦ ground (arith, sum-put_at f i n a lt)
    | no ge ↦ ground (arith, sum-put_at_beyond f i n a)
  ]

  -- Where the sum is not 0, one of the first `n` has a weight.
  pub sum-positive : (f : ℕ → A) (n : ℕ) → 0 < sum f n → (i : ℕ) × (i < n) × (0 < weight (f i))
  unfolding sum
  sum-positive f zero h = absurd (omega arith)
  sum-positive f (suc n) h = elim (dec_lt 0 (weight (f n))) [
    | yes lt ↦ (n, omega arith, lt)
    | no ge ↦ let (i, b, w) = sum-positive f n (omega arith) in (i, omega arith, w)
  ]

  -- Where each weighs at most 1 and the sum is less than `n`, one of the first `n` weighs nothing.
  pub sum-missing :
      (f : ℕ → A) (n : ℕ)
      → ((i : ℕ) → weight (f i) ≤ 1)
      → sum f n < n
      → (i : ℕ) × (i < n) × (weight (f i) ≡ 0)
  unfolding sum
  sum-missing f zero small h = absurd (omega arith)
  sum-missing f (suc n) small h = elim (dec_lt 0 (weight (f n))) [
    | yes lt ↦ let (i, b, w) = sum-missing f n small (omega arith) in (i, omega arith, w)
    | no ge ↦ (n, omega arith, omega arith)
  ]

  pub weight-le_sum : (f : ℕ → A) (n i : ℕ) → i < n → weight (f i) ≤ sum f n
  unfolding sum
  weight-le_sum f zero i h = absurd (omega arith)
  weight-le_sum f (suc n) i h = elim (dec_lt i n) [
    | yes lt ↦ omega (arith, weight-le_sum f n i lt)
    | no ge ↦ ground arith
  ]

  -- Two of the first `n` weigh no more together than all.
  pub sum-two :
      (f : ℕ → A) (n i j : ℕ) (light : A)
      → weight light ≡ 0
      → i < n
      → j < n
      → i ≢ j
      → weight (f i) + weight (f j) ≤ sum f n
  sum-two f n i j light z h k ne =
      ground (arith, z, ne, sum-put_at f i n light h, weight-le_sum (put_at i light f) n j k)

  pub sum-zero : (f : ℕ → A) (n : ℕ) → ((i : ℕ) → i < n → weight (f i) ≡ 0) → sum f n ≡ 0
  unfolding sum
  sum-zero f zero h = refl
  sum-zero f (suc n) h = omega (arith, h n (omega arith), sum-zero f n (λ i b. h i (omega arith)))

  pub sum-le : (f : ℕ → A) (n : ℕ) → ((i : ℕ) → weight (f i) ≤ 1) → sum f n ≤ n
  unfolding sum
  sum-le f zero small = omega arith
  sum-le f (suc n) small = omega (arith, small n, sum-le f n small)

  -- Where each weighs at most 1 and all `n` weigh `n`, each weighs 1.
  pub sum-full :
      (f : ℕ → A) (n i : ℕ) → ((i : ℕ) → weight (f i) ≤ 1) → sum f n ≡ n → i < n → weight (f i) ≡ 1
  unfolding sum
  sum-full f zero i small h b = absurd (omega arith)
  sum-full f (suc n) i small h b = elim (dec_lt i n) [
    | yes lt ↦ sum-full f n i small (omega (arith, small n, sum-le f n small)) lt
    | no ge ↦ ground (arith, small n, sum-le f n small)
  ]
