-- ===== src/Util/Buffer/Memory.antt =====
-- Where there is memory the operations of a buffer do not fail.
use model_lib.Prelude.{
  ℕ, zero, suc, ◌+◌, ◌^◌, ◌≤◌, ◌<◌, ◌≡◌, ◌≢◌, refl, Option, none, some, ◌∷◌, ◌++◌, [], arith,
  if◌then◌else◌, leb, length, length-append, Option-cases, Bool-cases, inl, inr,
}
use model_lib.Prelude.Int.{ℤ, pos}
use model_lib.Prelude.Text.{ByteString}
use model_lib.Util.Number.{decimal}
use model_lib.Util.Number.Digits.{length-decimal}
use model_lib.Util.Buffer.{
  Buffer, Realloc, Room, room, no_memory, out_of_fuel, content, size_of_int, next_total, grow,
  make_room, resized, write_slot, append, append_record,
}
use model_lib.Util.Buffer.Space.{IsValid, HasRoom, grow_lem, make_room_lem}
use model_lib.Util.Buffer.Append.{write_slot-Appended}

-- A block of fewer than 2 ^ 31 bytes is never refused.
abbrev pub IsGenerous : Realloc → Type 0
IsGenerous R = (block : ByteString) (n : ℕ) → n < 2 ^ 31 → R.realloc block n ≢ none

next_total-small : (n : ℕ) → n < 2 ^ 30 → size_of_int (next_total n) < 2 ^ 31
unfolding next_total
next_total-small n h = ground arith

-- A record has room in the bytes that `append_record` asks for.
pub record_fits :
    (s : ByteString)
    → length s < 2 ^ 31
    → length (decimal (length s) ++ (10 ∷ (s ++ 10 ∷ []))) ≤ 16 + length s + 1
record_fits s h = omega (
  arith,
  length-append (decimal (length s)) (10 ∷ (s ++ 10 ∷ [])),
  length-append s (10 ∷ []),
  (length-decimal (length s) 9).1 (omega (arith, h)),
)

module _ (R : Realloc) (generous : IsGenerous R) where
  grow-some : (b : Buffer) → b.total < 2 ^ 30 → grow R b ≢ none
  unfolding grow
  grow-some b h e = elim (Option-cases (R.realloc b.buf (size_of_int (next_total b.total)))) [
    | inl r ↦ generous b.buf _ (next_total-small b.total h) r
    | inr (block, r) ↦ cc (rw (r, resized) at e)
  ]

  -- The loop that makes room does not give up.
  make_room-some :
      (fuel : ℕ) (b : Buffer) (num : ℕ)
      → IsValid b
      → b.offset + b.size + num < 2 ^ 30
      → (b' : Buffer) → ¬ (make_room R fuel b num ≡ no_memory b')
  unfolding make_room
  make_room-some zero b num v h b' e = cc e
  make_room-some (suc fuel) b num v h b' e =
      elim (Bool-cases (leb (b.offset + b.size + num) b.total)) [
        | inl l ↦ cc (rw (l, if◌then◌else◌) at e)
        | inr l ↦ elim (Option-cases (grow R b)) [
          | inl g ↦ grow-some b (ground (arith, l, h)) g
          | inr (c, g) ↦
              let (k, larger) = grow_lem R b c v g in
              make_room-some fuel c num k.valid (omega (arith, k.offset, k.size, h)) b'
                (rw (l, if◌then◌else◌, g) at e)
        ]
      ]

  -- What an append leaves that does not fail.
  pub record Wrote (b : Buffer) (s : ByteString) (o : Option (ℤ × Buffer)) : Type 0 where
    pub buffer : Buffer
    pub result : o ≡ some (pos (length s), buffer)
    pub valid : IsValid buffer
    pub bytes : content buffer ≡ content b ++ s
    pub offset : buffer.offset ≡ b.offset
    pub size : buffer.size ≡ b.size + length s

  write_slot-Wrote :
      (b : Buffer) (s : ByteString) (num : ℕ) (r : Room)
      → length s ≤ num
      → ((b' : Buffer) → ¬ (r ≡ no_memory b'))
      → HasRoom R b num r
      → Wrote b s (write_slot R r s)
  write_slot-Wrote b s num (room c) l n (k, h) =
      let (same, valid, bytes) = write_slot-Appended R b s num (room c) l (k, h) in
      record {
        buffer = _;
        result = refl;
        valid = valid;
        bytes = bytes;
        offset = k.offset;
        size = omega (arith, k.size);
      }
  write_slot-Wrote b s num (no_memory c) l n k = absurd (n c refl)
  write_slot-Wrote b s num out_of_fuel l n h = absurd h

  pub append-Wrote :
      (b : Buffer) (s : ByteString)
      → IsValid b
      → b.offset + b.size + length s < 2 ^ 30
      → Wrote b s (append R b s)
  unfolding append
  append-Wrote b s v h =
      write_slot-Wrote b s (length s) _ (omega arith)
        (make_room-some (suc (length s)) b (length s) v h)
        (make_room_lem R (suc (length s)) b (length s) v (omega arith) (omega (arith, v.inside)))

  pub append_record-Wrote :
      (b : Buffer) (s : ByteString)
      → IsValid b
      → b.offset + b.size + 17 + length s < 2 ^ 30
      → Wrote b (decimal (length s) ++ (10 ∷ (s ++ 10 ∷ []))) (append_record R b s)
  unfolding append_record
  append_record-Wrote b s v h =
      write_slot-Wrote b _ (16 + length s + 1) _ (record_fits s (omega arith))
        (make_room-some (suc (16 + length s + 1)) b (16 + length s + 1) v (omega arith))
        (make_room_lem R (suc (16 + length s + 1)) b (16 + length s + 1) v (omega arith)
          (omega (arith, v.inside)))
