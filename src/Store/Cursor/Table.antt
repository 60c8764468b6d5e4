-- ===== src/Store/Cursor/Table.antt =====
-- A database in memory with cursors, to run the store on.
use Prim.Native.Nat.{Ordering}
use model_lib.Prelude.{
  ◌≡◌, ◌≢◌, refl, ap, subst, ◌∙◌, Option, none, some, Bool, true, false, not, List, [], ◌∷◌, arith,
  if◌then◌else◌, Bool-cases, Option-cases, inl, inr, ◌⊎◌, ◌↔◌,
}
use model_lib.Prelude.Text.{ByteString, str_eq, str_eq_iff, str_eq_refl, str_eq_sound}
use model_lib.Util.Bytes.{compare_bytes}
use model_lib.Util.Bytes.Order.{compare_bytes_order, compare_bytes_trans}
use model_lib.Store.LevelDb.{LevelDb, Op, replay, memory_get, memory_get-Agrees}
use model_lib.Store.Cursor.{Before, Least, Greatest, Cursors}

abbrev pub Entries : Type 0
Entries = List (ByteString × ByteString)

unfoldable pub find : Entries → ByteString → Option ByteString
find [] k = none
find ((j, v) ∷ d) k = if str_eq j k then some v else find d k

unfoldable pub remove : Entries → ByteString → Entries
remove [] k = []
remove ((j, v) ∷ d) k = if str_eq j k then remove d k else (j, v) ∷ remove d k

unfoldable pub carry_out : Entries → List Op → Entries
unfolding remove
carry_out d [] = d
carry_out d (Op.put k v ∷ batch) = carry_out ((k, v) ∷ d) batch
carry_out d (Op.delete k ∷ batch) = carry_out (remove d k) batch

find-remove :
    (d : Entries) (j k : ByteString) → find (remove d j) k ≡ (if str_eq j k then none else find d k)
unfolding find remove
find-remove [] j k = ground arith
find-remove ((i, v) ∷ d) j k =
    ground (arith, find-remove d j k, str_eq_iff i j, str_eq_iff i k, str_eq_iff j k)

pub find-carry_out :
    (d : Entries) (batch : List Op) (k : ByteString)
    → find (carry_out d batch) k ≡ replay batch k (find d k)
unfolding carry_out
find-carry_out d [] k = refl
find-carry_out d (Op.put j v ∷ batch) k = find-carry_out ((j, v) ∷ d) batch k ∙ unfold find in refl
find-carry_out d (Op.delete j ∷ batch) k =
    find-carry_out (remove d j) batch k ∙ ap (replay batch k) (find-remove d j k)

-- The best key that passes a test; `better` is a strict order.
module _ (better : ByteString → ByteString → Bool) (irrefl : (a : ByteString) → better a a ≡ false)
    (trans : (a b c : ByteString) → better a b ≡ true → better b c ≡ true → better a c ≡ true)
    (test : ByteString → Bool) where
  unfoldable pub choose : ByteString → Option ByteString → ByteString
  choose j none = j
  choose j (some k) = if better j k then j else k

  unfoldable pub pick : Entries → Option ByteString
  unfolding choose
  pick [] = none
  pick ((j, v) ∷ d) = if test j then some (choose j (pick d)) else pick d

  abbrev pub IsBest : Entries → Option ByteString → Type 0
  IsBest d none = (j : ByteString) → test j ≡ true → find d j ≡ none
  IsBest d (some k) =
      (test k ≡ true)
      × (find d k ≢ none)
      × ((j : ByteString) → test j ≡ true → find d j ≢ none → better j k ≡ false)

  find_self : (i v : ByteString) (d : Entries) → find ((i, v) ∷ d) i ≢ none
  unfolding find
  find_self i v d h = cc (rw (str_eq_refl i, if◌then◌else◌) at h)

  -- An entry behind the first is found, unless the first hides it.
  found-behind :
      (i v : ByteString) (d : Entries) (j : ByteString)
      → find ((i, v) ∷ d) j ≢ none
      → (i ≡ j) ⊎ (find d j ≢ none)
  unfolding find
  found-behind i v d j h = elim (Bool-cases (str_eq i j)) [
    | inl e ↦ inl (str_eq_sound i j e)
    | inr e ↦ inr (rw (e, if◌then◌else◌) at h)
  ]

  found-before :
      (i v : ByteString) (d : Entries) (j : ByteString)
      → find d j ≢ none
      → find ((i, v) ∷ d) j ≢ none
  unfolding find
  found-before i v d j h = elim (Bool-cases (str_eq i j)) [
    | inl e ↦ rw (e, if◌then◌else◌) (λ n. cc n)
    | inr e ↦ rw (e, if◌then◌else◌) h
  ]

  first-IsBest :
      (i v : ByteString) (d : Entries) (o : Option ByteString)
      → test i ≡ true
      → IsBest d o
      → IsBest ((i, v) ∷ d) (some (choose i o))
  unfolding choose
  first-IsBest i v d none t h = (
    t,
    find_self i v d,
    λ j tj n. elim (found-behind i v d j n) [
      | inl e ↦ subst (λ x. better x i ≡ false) e (irrefl i)
      | inr m ↦ absurd (m (h j tj))
    ],
  )
  first-IsBest i v d (some k) t (tk, fk, best) = elim (Bool-cases (better i k)) [
    | inl e ↦
        rw (e, if◌then◌else◌)
          (
            t,
            find_self i v d,
            λ j tj n. elim (found-behind i v d j n) [
              | inl q ↦ subst (λ x. better x i ≡ false) q (irrefl i)
              | inr m ↦ ground (arith, trans j i k, best j tj m)
            ],
          )
    | inr e ↦
        rw (e, if◌then◌else◌)
          (
            tk,
            found-before i v d k fk,
            λ j tj n. elim (found-behind i v d j n) [
              | inl q ↦ subst (λ x. better x k ≡ false) q e
              | inr m ↦ best j tj m
            ],
          )
  ]

  other-IsBest :
      (i v : ByteString) (d : Entries) (o : Option ByteString)
      → test i ≡ false
      → IsBest d o
      → IsBest ((i, v) ∷ d) o
  other-IsBest i v d none t h = λ j tj. elim (Option-cases (find ((i, v) ∷ d) j)) [
    | inl e ↦ e
    | inr (w, e) ↦ elim (found-behind i v d j (λ n. cc (n, e))) [
      | inl q ↦ cc (q, t, tj)
      | inr m ↦ absurd (m (h j tj))
    ]
  ]
  other-IsBest i v d (some k) t (tk, fk, best) = (
    tk,
    found-before i v d k fk,
    λ j tj n. elim (found-behind i v d j n) [ inl q ↦ cc (q, t, tj) | inr m ↦ best j tj m ],
  )

  pub pick-IsBest : (d : Entries) → IsBest d (pick d)
  unfolding pick find
  pick-IsBest [] = λ j h. refl
  pick-IsBest ((i, v) ∷ d) = elim (Bool-cases (test i)) [
    | inl e ↦ rw (e, if◌then◌else◌) (first-IsBest i v d (pick d) e (pick-IsBest d))
    | inr e ↦ rw (e, if◌then◌else◌) (other-IsBest i v d (pick d) e (pick-IsBest d))
  ]

abbrev pub is_before : ByteString → ByteString → Bool
is_before a b = elim (compare_bytes a b) [ Ordering.lt ↦ true | _ ↦ false ]

pub is_before_iff : (a b : ByteString) → (is_before a b ≡ true) ↔ Before a b
is_before_iff a b = ground arith

pub is_before_irrefl : (a : ByteString) → is_before a a ≡ false
is_before_irrefl a = rw (is_before, (compare_bytes_order a a).0.1 refl) refl

pub is_before_trans :
    (a b c : ByteString) → is_before a b ≡ true → is_before b c ≡ true → is_before a c ≡ true
is_before_trans a b c h k =
    (is_before_iff a c).1
      (compare_bytes_trans a b c ((is_before_iff a b).0 h) ((is_before_iff b c).0 k))

abbrev pub is_after : ByteString → ByteString → Bool
is_after a b = is_before b a

pub is_after_trans :
    (a b c : ByteString) → is_after a b ≡ true → is_after b c ≡ true → is_after a c ≡ true
is_after_trans a b c h k = is_before_trans c b a k h

abbrev pub table : LevelDb
table = record {
  Db = Entries;
  read = find;
  get = λ d k. memory_get (find d k);
  write = λ d batch. (true, carry_out d batch);
  get_agrees = λ d k. memory_get-Agrees (find d k);
  write_replay = λ d batch k h. find-carry_out d batch k;
}

not-Before : (a b : ByteString) → is_before a b ≡ false → ¬ Before a b
not-Before a b h k = cc ((is_before_iff a b).1 k, h)

pub Least-of_best :
    (P : ByteString → Type 0) (test : ByteString → Bool)
    → ((j : ByteString) → (test j ≡ true) ↔ P j)
    → (d : Entries) (o : Option ByteString)
    → IsBest is_before is_before_irrefl is_before_trans test d o
    → Least table d P o
Least-of_best P test iff d none h = λ j p. h j ((iff j).1 p)
Least-of_best P test iff d (some k) (t, f, best) =
    ((iff k).0 t, f, λ j p n. not-Before j k (best j ((iff j).1 p) n))

pub Greatest-of_best :
    (P : ByteString → Type 0) (test : ByteString → Bool)
    → ((j : ByteString) → (test j ≡ true) ↔ P j)
    → (d : Entries) (o : Option ByteString)
    → IsBest is_after is_before_irrefl is_after_trans test d o
    → Greatest table d P o
Greatest-of_best P test iff d none h = λ j p. h j ((iff j).1 p)
Greatest-of_best P test iff d (some k) (t, f, best) =
    ((iff k).0 t, f, λ j p n. not-Before k j (best j ((iff j).1 p) n))

pub not-Before_iff : (t j : ByteString) → (not (is_before j t) ≡ true) ↔ (¬ Before j t)
not-Before_iff t j = elim (Bool-cases (is_before j t)) [
  | inl e ↦ rw e ((λ h. cc h), (λ h. absurd (h ((is_before_iff j t).0 e))))
  | inr e ↦ rw e ((λ h. not-Before j t e), (λ h. refl))
]

abbrev pick_least : (ByteString → Bool) → Entries → Option ByteString
pick_least test d = pick is_before is_before_irrefl is_before_trans test d

abbrev pick_greatest : (ByteString → Bool) → Entries → Option ByteString
pick_greatest test d = pick is_after is_before_irrefl is_after_trans test d

abbrev pub table_cursors : Cursors table
table_cursors = record {
  seek = λ d t. pick_least (λ j. not (is_before j t)) d;
  seek_to_last = pick_greatest (λ j. true);
  next = λ d k. pick_least (λ j. is_before k j) d;
  prev = λ d k. pick_greatest (λ j. is_before j k) d;
  seek_least = λ d t. Least-of_best _ _ (not-Before_iff t) d _ (pick-IsBest _ _ _ _ d);
  last_greatest =
      λ d. Greatest-of_best _ _ (λ j. ((λ h. tt), (λ h. refl))) d _ (pick-IsBest _ _ _ _ d);
  next_least = λ d k. Least-of_best _ _ (λ j. is_before_iff k j) d _ (pick-IsBest _ _ _ _ d);
  prev_greatest = λ d k. Greatest-of_best _ _ (λ j. is_before_iff j k) d _ (pick-IsBest _ _ _ _ d);
}
