-- ===== src/Store/Iterator/Range.antt =====
-- The keys that an iterator of a store goes through.
use model_lib.Prelude.{
  ℕ, zero, suc, ◌≡◌, ◌≢◌, ◌⊎◌, refl, subst, inl, inr, Option, none, some, false, List, [], ◌∷◌,
  arith, if◌then◌else◌, Bool-cases, Ordering-cases, ◌==◌,
}
use model_lib.Prelude.Text.{ByteString, str_eq, str_eq_sound, str_eq_refl}
use model_lib.Util.Bytes.{compare_bytes}
use model_lib.Util.Bytes.Order.{compare_bytes_order}
use model_lib.Store.LevelDb.{LevelDb}
use model_lib.Store.Cursor.{Before, Cursors, Least}
use model_lib.Store.Queue.{Queue}
use model_lib.Store.Iterator.{
  Iterator, Direction, past_end, key, check, move, next, seek_behind, iterator,
}

pub Before-or_not : (a b : ByteString) → Before a b ⊎ (¬ Before a b)
Before-or_not a b = elim (Ordering-cases (compare_bytes a b)) [
  | inl e ↦ inl e
  | inr (inl e) ↦ inr (λ h. cc (e, h))
  | inr (inr e) ↦ inr (λ h. cc (e, h))
]

-- Of two keys that are not the same, one is before the other.
pub Before-total : (a b : ByteString) → a ≢ b → (¬ Before b a) → Before a b
Before-total a b ne h = ground (arith, compare_bytes_order a b, h, ne)

pub not-Before_back : (a b : ByteString) → Before a b → ¬ Before b a
not-Before_back a b h k = ground (arith, compare_bytes_order a b, h, k)

-- `ks` are the first `n` keys that have a value behind `start` and up to `end_key`, in order, or all of
-- them if there are fewer. There is no end if `end_key` is empty.
abbrev pub IsRange :
    (ByteString → Option ByteString) → ByteString → ByteString → ℕ → List ByteString → Type 0
IsRange read end_key start zero [] = Unit
IsRange read end_key start zero (k ∷ ks) = ⊥
IsRange read end_key start (suc n) [] =
    (j : ByteString) → Before start j → past_end Direction.forward j end_key ≡ false → read j ≡ none
IsRange read end_key start (suc n) (k ∷ ks) =
    Before start k
    × (past_end Direction.forward k end_key ≡ false)
    × (read k ≢ none)
    × ((j : ByteString) → Before start j → Before j k → read j ≡ none)
    × IsRange read end_key k n ks

pub none_if {ℓ} : {A : Type ℓ} (o : Option A) → ¬ (o ≢ none) → o ≡ none
none_if none h = refl
none_if (some v) h = absurd (h (λ e. cc e))

module _ {L : LevelDb} (C : Cursors L) where
  -- The keys that a caller gets who calls `next` until it returns false, at most `n` times.
  unfoldable pub keys : ℕ → Iterator L → List ByteString
  keys zero t = []
  keys (suc n) t = let r = next C t in let rest = keys n r.1 in if r.0 then key r.1 ∷ rest else []

  abbrev pub ahead : Iterator L → Option ByteString
  ahead t = if t.is_first then t.it else move C t.db t.direction t.it

  pub next_lem :
      (t : Iterator L) (n : ℕ)
      → t.limit ≡ suc n
      → next C t ≡ check (record t { is_first = false }) (ahead t)
  unfolding next
  next_lem t n h = let e : (t.limit == 0) ≡ false = ground (arith, h) in rw (e, if◌then◌else◌) refl

  -- The cursor behind a key that was returned.
  pub next-Least :
      (t : Iterator L) (k : ByteString) (n : ℕ)
      → t.direction ≡ Direction.forward
      → Least L t.db (Before k) (ahead (record t { is_first = false; limit = n; it = some k }))
  unfolding move
  next-Least t k n d = rw d (C.next_least t.db k)

  pub iterator-ahead :
      (q : Queue L) (start end_key : ByteString) (limit : ℕ)
      → Least L q.db (Before start) (ahead (iterator C q start end_key limit))
  unfolding iterator seek_behind
  iterator-ahead q start end_key limit = go (C.seek q.db start) (C.seek_least q.db start)
    where
      go :
          (o : Option ByteString)
          → Least L q.db (λ j. ¬ Before j start) o
          → Least L q.db (Before start) (seek_behind C q.db start o)
      go none l = λ j b. l j (not-Before_back start j b)
      go (some k) (nb, st, least) = elim (Bool-cases (str_eq k start)) [
        | inl e ↦
            rw (e, if◌then◌else◌)
              (subst (λ x. Least L q.db (Before x) (C.next q.db k)) (str_eq_sound k start e)
                (C.next_least q.db k))
        | inr e ↦
            rw (e, if◌then◌else◌)
              (
                Before-total start k (λ i. cc (i, e, str_eq_refl start)) nb,
                st,
                λ j b. least j (not-Before_back start j b),
              )
      ]
