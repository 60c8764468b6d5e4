-- ===== src/Util/Buffer/Space.antt =====
-- A buffer stays inside its block, and the loop that makes room for more ends.
use model_lib.Prelude.{
  ℕ, zero, suc, ◌+◌, ◌^◌, ◌≤◌, ◌<◌, ◌≡◌, refl, ap, sym, subst, ◌∙◌, some, ◌++◌, arith,
  if◌then◌else◌, leb, take, drop, length, take-append-drop, Option-cases, Bool-cases, inl, inr,
  leb→le,
}
use mathlib.Core.Option.{some-injective}
use model_lib.Prelude.Text.{ByteString}
use model_lib.Util.Buffer.Block.{take-drop-append_left}
use model_lib.Util.Buffer.{
  Buffer, Realloc, Room, room, no_memory, out_of_fuel, content, size_of_int, next_total, grow,
  make_room, resized,
}

-- The block has `total` bytes, and the data lie in it; `total` is an `int`.
pub record IsValid (b : Buffer) : Type 0 where
  pub block : length b.buf ≡ b.total
  pub inside : b.offset + b.size ≤ b.total
  pub fits : b.total < 2 ^ 31

next_total-larger : (n : ℕ) → n < 2 ^ 31 → (n < next_total n) × (next_total n < 2 ^ 32)
unfolding next_total
next_total-larger n h = ground arith

module _ (R : Realloc) where
  -- `b'` has the data of `b`, and is inside its block.
  pub record Keeps (b b' : Buffer) : Type 0 where
    pub valid : IsValid b'
    pub same : content b' ≡ content b
    pub size : b'.size ≡ b.size
    pub offset : b'.offset ≡ b.offset

  -- An `int` that grew past 2 ^ 31 asks for more than there is.
  size_of_int_fits :
      (n : ℕ) → n < 2 ^ 32 → size_of_int n < 2 ^ 63 → (n < 2 ^ 31) × (size_of_int n ≡ n)
  size_of_int_fits n h k = ground arith

  size_of_int-larger : (m n : ℕ) → m < 2 ^ 31 → m < n → n < 2 ^ 32 → m ≤ size_of_int n
  size_of_int-larger m n h k l = ground arith

  -- The block that `realloc` returned.
  resized-Keeps :
      (b : Buffer) (block : ByteString)
      → IsValid b
      → R.realloc b.buf (size_of_int (next_total b.total)) ≡ some block
      → Keeps b (record b { buf = block; total = next_total b.total })
  resized-Keeps b block v e =
      let larger = next_total-larger b.total v.fits in
      let room = size_of_int-larger b.total (next_total b.total) v.fits larger.0 larger.1 in
      let kept = R.realloc_keeps b.buf block _ e (omega (arith, v.block, room)) in
      let exact = size_of_int_fits (next_total b.total) larger.1 kept.2 in
      let old : take (length b.buf) block ++ drop (length b.buf) block ≡ block =
        take-append-drop (length b.buf) block in
      record {
        valid = record {
          block = kept.0 ∙ exact.1;
          inside = omega (arith, v.inside, larger.0);
          fits = exact.0;
        };
        same =
            ap (λ u. take b.size (drop b.offset u)) (sym old)
            ∙ ap (λ u. take b.size (drop b.offset (u ++ drop (length b.buf) block))) kept.1
            ∙ take-drop-append_left b.offset b.size b.buf _ (omega (arith, v.inside, v.block));
        size = refl;
        offset = refl;
      }

  pub grow_lem :
      (b b' : Buffer) → IsValid b → grow R b ≡ some b' → Keeps b b' × (b.total < b'.total)
  unfolding grow
  grow_lem b b' v h = elim (Option-cases (R.realloc b.buf (size_of_int (next_total b.total)))) [
    | inl e ↦ cc (rw (e, resized) at h)
    | inr (block, e) ↦
        subst (λ c. Keeps b c × (b.total < c.total)) (some-injective _ _ (rw (e, resized) at h))
          (resized-Keeps b block v e, (next_total-larger b.total v.fits).0)
  ]

  -- What the loop that makes room leaves.
  abbrev pub HasRoom : Buffer → ℕ → Room → Type 0
  HasRoom b num (room b') = Keeps b b' × (b'.offset + b'.size + num ≤ b'.total)
  HasRoom b num (no_memory b') = Keeps b b'
  HasRoom b num out_of_fuel = ⊥

  Keeps-trans : (a b c : Buffer) → Keeps a b → Keeps b c → Keeps a c
  Keeps-trans a b c h k = record {
    valid = k.valid;
    same = k.same ∙ h.same;
    size = k.size ∙ h.size;
    offset = k.offset ∙ h.offset;
  }

  HasRoom-Keeps :
      (a b : Buffer) (num : ℕ) (r : Room) → Keeps a b → HasRoom b num r → HasRoom a num r
  HasRoom-Keeps a b num (room c) h (k, l) = (Keeps-trans a b c h k, l)
  HasRoom-Keeps a b num (no_memory c) h k = Keeps-trans a b c h k
  HasRoom-Keeps a b num out_of_fuel h k = k

  -- Each round makes the block larger, so that the bytes that are missing are fuel enough.
  pub make_room_lem :
      (fuel : ℕ) (b : Buffer) (num : ℕ)
      → IsValid b
      → 0 < fuel
      → b.offset + b.size + num < b.total + fuel
      → HasRoom b num (make_room R fuel b num)
  unfolding make_room
  make_room_lem zero b num v some_fuel h = absurd (omega arith)
  make_room_lem (suc fuel) b num v some_fuel h =
      elim (Bool-cases (leb (b.offset + b.size + num) b.total)) [
        | inl e ↦
            rw (e, if◌then◌else◌)
              (record { valid = v; same = refl; size = refl; offset = refl }, leb→le _ _ e)
        | inr e ↦ elim (Option-cases (grow R b)) [
          | inl g ↦
              rw (e, if◌then◌else◌, g)
                (record { valid = v; same = refl; size = refl; offset = refl })
          | inr (b', g) ↦
              let (k, l) = grow_lem b b' v g in
              rw (e, if◌then◌else◌, g)
                (HasRoom-Keeps b b' num _ k (
                  make_room_lem fuel b' num k.valid (ground (arith, e, h))
                    (omega (arith, k.size, k.offset, l, h))))
        ]
      ]
