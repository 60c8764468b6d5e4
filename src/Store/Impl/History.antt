-- ===== src/Store/Impl/History.antt =====
-- Sequences of `set` and `del`: the store is a dictionary, and its log records them in order.
use model_lib.Prelude.{
  ℕ, ◌≡◌, refl, ap, fun_ext, ◌∙◌, sym, inl, inr, Option, none, some, List, [], ◌∷◌, if◌then◌else◌,
}
use mathlib.Core.Option.{some-injective}
use model_lib.Prelude.Int.{ℤ, pos, negsuc, ℤ-cases}
use model_lib.Prelude.Text.{ByteString, str_eq}
use model_lib.Store.Keys.{encode_kv_key}
use model_lib.Store.Keys.RoundTrip.{encode_seq_key-ne-kv}
use model_lib.Store.LevelDb.{LevelDb}
use model_lib.Store.Queue.{Queue}
use model_lib.Store.Impl.{set, del}
use model_lib.Store.Impl.Kv.{Wrote, next_seq, set_lem, del_lem}

pub data Request : Type 0 where
  set_key : ByteString → ByteString → Request
  del_key : ByteString → Request

abbrev pub Dict : Type 0
Dict = ByteString → Option ByteString

-- A request on a dictionary. An empty key is not stored.
abbrev pub apply : Dict → Request → Dict
apply d (set_key [] v) j = d j
apply d (set_key (c ∷ k) v) j = if str_eq (c ∷ k) j then some v else d j
apply d (del_key k) j = if str_eq k j then none else d j

abbrev pub apply_all : Dict → List Request → Dict
apply_all d [] = d
apply_all d (r ∷ rs) = apply_all (apply d r) rs

module _ {L : LevelDb} where
  -- What the store holds at a key.
  abbrev pub value : Queue L → Dict
  value q j = L.read q.db (encode_kv_key j)

  unfoldable pub step : Queue L → Request → ℤ × Queue L
  step q (set_key k v) = set q k v
  step q (del_key k) = del q k

  abbrev pub unless_failed : ℤ → Option (Queue L) → Option (Queue L)
  unless_failed (pos n) rest = rest
  unless_failed (negsuc n) rest = none

  -- The requests in order; `none` if one failed.
  abbrev pub run : Queue L → List Request → Option (Queue L)
  run q [] = some q
  run q (r ∷ rs) = let rest = run (step q r).1 rs in unless_failed (step q r).0 rest

  value-Wrote :
      (q q' : Queue L) (cmd : ℕ) (k j : ByteString) (v : Option ByteString)
      → Wrote q q' cmd (encode_kv_key k) v
      → value q' j ≡ (if str_eq k j then v else value q j)
  value-Wrote q q' cmd k j v w =
      w.content (encode_kv_key j)
      ∙ rw (encode_seq_key-ne-kv (next_seq q) j) (unfold encode_kv_key str_eq in refl)

  -- One request that does not fail does to the store what it does to a dictionary.
  pub step-value :
      (q : Queue L) (r : Request) (n : ℕ) (j : ByteString)
      → (step q r).0 ≡ pos n
      → value (step q r).1 j ≡ apply (value q) r j
  unfolding step
  step-value q (set_key [] v) n j h = unfold set in refl
  step-value q (set_key (c ∷ k) v) n j h =
      value-Wrote q _ _ (c ∷ k) j (some v) ((set_lem q c k v).0 n h)
  step-value q (del_key k) n j h = value-Wrote q _ _ k j none ((del_lem q k).0 n h)

  -- The store refines a dictionary: after any requests of which none failed it holds, at every
  -- key, what the requests in order leave in a dictionary.
  pub run-value :
      (q q' : Queue L) (rs : List Request)
      → run q rs ≡ some q'
      → (j : ByteString) → value q' j ≡ apply_all (value q) rs j
  run-value q q' [] h j = ap (λ p. value p j) (sym (some-injective _ _ h))
  run-value q q' (r ∷ rs) h j = elim (ℤ-cases (step q r).0) [
    | inl (n, e) ↦
        run-value (step q r).1 q' rs (rw (e, unless_failed) at h) j
        ∙ ap (λ d. apply_all d rs j) (fun_ext (λ i. step-value q r n i e))
    | inr (n, e) ↦ cc (rw (e, unless_failed) at h)
  ]
