-- ===== src/Store/Iterator/Kv.antt =====
-- `KIterator` of ssdb/src/ssdb/iterator.h and ssdb/src/ssdb/iterator.cpp: the keys of the store that an
-- iterator passes.
use model_lib.Prelude.{
  ℕ, zero, suc, ◌≡◌, ◌⊎◌, refl, ap, inl, inr, Option, none, some, Bool, true, false, not, [], ◌∷◌,
  ◌==◌, ==_iff, if◌then◌else◌, get_or, arith, Bool-cases,
}
use model_lib.Prelude.Text.{ByteString}
use model_lib.Store.Const.DataType
use model_lib.Store.Keys.{encode_kv_key, decode_kv_key}
use model_lib.Store.LevelDb.{LevelDb}
use model_lib.Store.Cursor.{Cursors}
use model_lib.Store.Iterator
use model_lib.Store.Iterator.{Iterator}

pub record KIterator (L : LevelDb) : Type 0 where
  pub it : Iterator L
  pub returns_val : Bool
  pub key : ByteString
  pub val : ByteString

-- A key that begins with the byte of keys is one that is decoded.
kv-encode :
    (ks : ByteString)
    → get_or ks 0 0 ≡ DataType.kv
    → (key : ByteString) × (decode_kv_key ks ≡ some key) × (ks ≡ encode_kv_key key)
unfolding decode_kv_key encode_kv_key
kv-encode [] h = absurd (omega (arith, h))
kv-encode (c ∷ key) h = (key, ground arith, ap (λ b. b ∷ key) h)

module _ {L : LevelDb} where
  -- The constructor.
  abbrev pub new_kiterator : Iterator L → KIterator L
  new_kiterator it = record { it = it; returns_val = true; key = []; val = [] }

  unfoldable pub return_val : KIterator L → Bool → KIterator L
  return_val k onoff = record k { returns_val = onoff }

  abbrev pub with_entry : KIterator L → ByteString → ByteString → KIterator L
  with_entry k key vs = record k { key = key; val = if k.returns_val then vs else k.val }

  -- The rest of a round, behind `decode_kv_key`.
  abbrev pub with_key :
      Option (Bool × KIterator L)
      → KIterator L
      → ByteString
      → Option ByteString
      → Option (Bool × KIterator L)
  with_key again k vs none = again
  with_key again k vs (some key) = some (true, with_entry k key vs)

  -- `while(it->next())`; `none` is a loop that did not end on its fuel. The first byte of an empty key
  -- is 0 here.
  unfoldable pub next : Cursors L → ℕ → KIterator L → Option (Bool × KIterator L)
  next C zero k = none
  next C (suc fuel) k =
      let r = Iterator.next C k.it in
      let k' = record k { it = r.1 } in
      let ks = Iterator.key r.1 in
      let again = next C fuel k' in
      if not r.0
      then some (false, k')
      else if not (get_or ks 0 0 == DataType.kv)
      then some (false, k')
      else with_key again k' (Iterator.val r.1) (decode_kv_key ks)

  -- `KIterator::next` ends in its first round: it returns false, or true with the key whose encoding
  -- the iterator stands on, and with its value if values are asked for. In both cases the iterator has
  -- made one step.
  pub next-returns :
      (C : Cursors L) (fuel : ℕ) (k : KIterator L)
      → (next C (suc fuel) k ≡ some (false, record k { it = (Iterator.next C k.it).1 }))
        ⊎ ((key : ByteString) × (Iterator.key (Iterator.next C k.it).1 ≡ encode_kv_key key)
            × (next C (suc fuel) k
                ≡ some (
                  true,
                  record k {
                    it = (Iterator.next C k.it).1;
                    key = key;
                    val = if k.returns_val then Iterator.val (Iterator.next C k.it).1 else k.val;
                  },
                )))
  unfolding next
  next-returns C fuel k =
      let ks = Iterator.key (Iterator.next C k.it).1 in
      elim (Bool-cases (Iterator.next C k.it).0) [
        | inl e ↦ elim (Bool-cases (get_or ks 0 0 == DataType.kv)) [
          | inl f ↦
              let (key, d, at) = kv-encode ks ((==_iff _ _).0 f) in
              inr (key, at, rw (e, f, if◌then◌else◌, d) refl)
          | inr f ↦ inl (rw (e, f, if◌then◌else◌) refl)
        ]
        | inr e ↦ inl (rw (e, if◌then◌else◌) refl)
      ]
