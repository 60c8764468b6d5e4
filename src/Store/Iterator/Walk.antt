-- ===== src/Store/Iterator/Walk.antt =====
-- An iterator forward through a whole database, a call of `next` at a time.
use model_lib.Prelude.{
  ℕ, suc, ◌-◌, ◌≡◌, ◌≢◌, ◌⊎◌, refl, ap, ◌∙◌, subst, inl, inr, none, some, true, false, [], arith,
  if◌then◌else◌, Option-cases,
}
use model_lib.Prelude.Text.{ByteString}
use model_lib.Store.LevelDb.{LevelDb}
use model_lib.Store.Cursor.{Before, Cursors, Least}
use model_lib.Store.Iterator.{Iterator, Direction, key, val, check, next, past_end}
use model_lib.Store.Iterator.Range.{ahead, next_lem, next-Least, none_if}

module _ {L : LevelDb} (C : Cursors L) where
  -- The iterator has returned the keys up to `start`, and returns `n` at most.
  pub record IsAt (start : ByteString) (n : ℕ) (t : Iterator L) : Type 0 where
    pub left : t.limit ≡ n
    pub no_end : t.end_key ≡ []
    pub forward : t.direction ≡ Direction.forward
    pub place : Least L t.db (Before start) (ahead C t)

  -- What a call of `next` gets: the key behind `start`, with its value.
  pub record Stepped (start : ByteString) (n : ℕ) (t t' : Iterator L) : Type 0 where
    pub result : next C t ≡ (true, t')
    pub same : t'.db ≡ t.db
    pub value : L.read t.db (key t') ≡ some (val t')
    pub behind : Before start (key t')
    pub gap : (j : ByteString) → Before start j → Before j (key t') → L.read t.db j ≡ none
    pub at : IsAt (key t') n t'

  read-val :
      (t : Iterator L) (k : ByteString)
      → t.it ≡ some k
      → L.read t.db k ≢ none
      → L.read t.db k ≡ some (val t)
  unfolding val key
  read-val t k e h = elim (Option-cases (L.read t.db k)) [
    | inl r ↦ absurd (h r)
    | inr (v, r) ↦ r ∙ rw (e, r) refl
  ]

  no_past_end : (k : ByteString) → past_end Direction.forward k [] ≡ false
  unfolding past_end
  no_past_end k = refl

  -- Where no end is set, `next` gets the least key that is left, or there is none.
  pub next-Stepped :
      (start : ByteString) (n : ℕ) (t : Iterator L)
      → IsAt start (suc n) t
      → (((next C t).0 ≡ false) × ((j : ByteString) → Before start j → L.read t.db j ≡ none))
        ⊎ ((t' : Iterator L) × Stepped start n t t')
  next-Stepped start n t a = elim (Option-cases (ahead C t)) [
    | inl e ↦
        let first = next_lem C t n a.left ∙ ap (check (record t { is_first = false })) e in
        inl (ap (λ r. r.0) first, λ j b. subst (Least L t.db (Before start)) e a.place j b)
    | inr (k, e) ↦
        let first = next_lem C t n a.left ∙ ap (check (record t { is_first = false })) e in
        let (b, st, least) = subst (Least L t.db (Before start)) e a.place in
        let t' : Iterator L = record t { is_first = false; limit = t.limit - 1; it = some k } in
        inr (
          t',
          record {
            result = first ∙ rw (a.forward, a.no_end, no_past_end k, if◌then◌else◌) refl;
            same = refl;
            value = unfold key in read-val t' k refl st;
            behind = unfold key in b;
            gap = unfold key in λ j bj bk. none_if (L.read t.db j) (λ r. least j bj r bk);
            at = record {
              left = omega (arith, a.left);
              no_end = a.no_end;
              forward = a.forward;
              place = unfold key in next-Least C t k (t.limit - 1) a.forward;
            };
          },
        )
  ]
