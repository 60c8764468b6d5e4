-- ===== src/Replication/Copy.antt =====
-- A copy of a whole store: `BackendSync::Client::copy` of ssdb/src/backend_sync.cpp, call after call, and
-- `Slave::proc_copy` of ssdb/src/slave.cpp.
pub mod Step
pub mod Loop
use Prim.Native.Nat.{Ordering, compare}
use model_lib.Prelude.{
  ℕ, zero, suc, ◌≡◌, ◌≢◌, ◌⊎◌, refl, sym, ap, ◌∙◌, subst, inl, inr, Option, none, some, true, false,
  [], ◌∷◌, arith, if◌then◌else◌, Bool-cases, Ordering-cases,
}
use model_lib.Prelude.Text.{ByteString, str_eq, str_eq_sound, str_eq_refl}
use model_lib.Util.Bytes.{compare_bytes}
use model_lib.Util.Bytes.Order.{compare_bytes_order, compare_bytes_trans}
use model_lib.Store.Const.DataType
use model_lib.Store.Keys.{encode_kv_key}
use model_lib.Store.Cursor.{Before}
use model_lib.Store.Iterator.Range.{Before-or_not}
use model_lib.Store.Impl.History.{Dict}

-- What a copy leaves at a replica that had `base`: the values of the store, and its own where the store
-- has none.
abbrev pub or_else : Option ByteString → Option ByteString → Option ByteString
or_else none old = old
or_else (some v) old = some v

-- The entries up to the database key `start` are copied.
abbrev pub Copied : Dict → Dict → ByteString → Dict → Type 0
Copied goal base start d =
    (j : ByteString)
    → ((¬ Before start (encode_kv_key j)) → d j ≡ or_else (goal j) (base j))
      × (Before start (encode_kv_key j) → d j ≡ base j)

str_eq_differs : (a b : ByteString) → a ≢ b → str_eq a b ≡ false
str_eq_differs a b h = elim (Bool-cases (str_eq a b)) [
  | inl e ↦ absurd (h (str_eq_sound a b e))
  | inr e ↦ e
]

-- The copy goes on from `start` to the next key `k` of the database.
pub step-Copied :
    (goal base d d' : Dict) (start k v : ByteString)
    → Copied goal base start d
    → ((j : ByteString) → d' j ≡ (if str_eq k (encode_kv_key j) then some v else d j))
    → ((j : ByteString) → k ≡ encode_kv_key j → goal j ≡ some v)
    → Before start k
    → ((j : ByteString)
        → Before start (encode_kv_key j)
        → Before (encode_kv_key j) k
        → goal j ≡ none)
    → Copied goal base k d'
step-Copied goal base d d' start k v c made at b gap j =
    let at_j = encode_kv_key j in
    let order = compare_bytes_order k at_j in
    elim (Ordering-cases (compare_bytes k at_j)) [
      | inl lt ↦
          let off = str_eq_differs k at_j (λ e. ground (arith, order, lt, e)) in
          (
            λ h. absurd (h lt),
            λ h. made j ∙ rw (off, if◌then◌else◌) ((c j).1 (compare_bytes_trans start k at_j b lt)),
          )
      | inr (inl eq) ↦
          let e = order.0.0 eq in
          (
            λ h. made j ∙ rw (at j e, ap (str_eq k) (sym e) ∙ str_eq_refl k, if◌then◌else◌) refl,
            λ h. cc (h, eq),
          )
      | inr (inr gt) ↦
          let off = str_eq_differs k at_j (λ e. ground (arith, order, gt, e)) in
          let before : Before at_j k = ground (arith, order, gt) in
          (
            λ h.
                made j
                ∙ rw (off, if◌then◌else◌)
                    (elim (Before-or_not start at_j) [
                      | inl l ↦ (c j).1 l ∙ rw (gap j l before) refl
                      | inr l ↦ (c j).0 l
                    ]),
            λ h. cc (h, gt),
          )
    ]
