-- ===== src/Util/Buffer/Append.antt =====
-- What the operations of a buffer do to its data.
use model_lib.Prelude.{
  ℕ, suc, ◌+◌, ◌/◌, ◌^◌, ◌≤◌, ◌<◌, ◌≡◌, refl, ap, subst, ◌∙◌, Option, none, some, [], ◌∷◌, ◌++◌,
  arith, if◌then◌else◌, ltb, take, drop, length, length-append, length-take, length-drop,
  take-length_append, Bool-cases, inl, inr, ◌⊎◌, ltb→lt, ◌==◌, ==_iff, false,
}
use model_lib.Prelude.Int.{ℤ, pos, negsuc}
use model_lib.Prelude.Text.{ByteString}
use model_lib.Util.Number.{decimal}
use model_lib.Util.Number.Digits.{length-decimal}
use model_lib.Util.Buffer.Block.{take-drop_extend}
use model_lib.Util.Buffer.Space.{IsValid, HasRoom, make_room_lem}
use model_lib.Util.Buffer.{
  append_record, Buffer, Realloc, Room, room, no_memory, out_of_fuel, content, copy_to, nice,
  append, write_slot,
}

-- What `append` returns and leaves.
abbrev pub Appended : Buffer → ByteString → Option (ℤ × Buffer) → Type 0
Appended b s none = ⊥
Appended b s (some (pos n, b')) = (n ≡ length s) × IsValid b' × (content b' ≡ content b ++ s)
Appended b s (some (negsuc n, b')) = (n ≡ 0) × IsValid b' × (content b' ≡ content b)

length-copy_to :
    (block : ByteString) (i : ℕ) (s : ByteString)
    → i + length s ≤ length block
    → length (copy_to block i s) ≡ length block
length-copy_to block i s h =
    length-append (take i block) _
    ∙ omega (
      arith,
      h,
      length-append s (drop (i + length s) block),
      length-take i block,
      length-drop (i + length s) block,
    )

module _ (R : Realloc) where
  pub write_slot-Appended :
      (b : Buffer) (s : ByteString) (num : ℕ) (r : Room)
      → length s ≤ num
      → HasRoom R b num r
      → Appended b s (write_slot R r s)
  write_slot-Appended b s num (room c) l (k, h) = (
    refl,
    record {
      block =
          length-copy_to c.buf (c.offset + c.size) s (omega (arith, h, l, k.valid.block))
          ∙ k.valid.block;
      inside = omega (arith, h, l);
      fits = k.valid.fits;
    },
    take-drop_extend c.offset c.size c.buf s _ (omega (arith, h, k.valid.block))
        ∙ ap (λ u. u ++ s) k.same,
  )
  write_slot-Appended b s num (no_memory c) l k = (refl, k.valid, k.same)
  write_slot-Appended b s num out_of_fuel l h = h

  -- `append` on a valid buffer returns: the number of the bytes, which are then behind the data, or
  -- -1, where the data are as they were. The buffer stays valid.
  pub append-Appended : (b : Buffer) (s : ByteString) → IsValid b → Appended b s (append R b s)
  unfolding append
  append-Appended b s v =
      write_slot-Appended b s (length s) _ (omega arith)
        (make_room_lem R (suc (length s)) b (length s) v (omega arith) (omega (arith, v.inside)))

  -- `append_record` on a valid buffer returns: the number of bytes of the length, a line end, the
  -- string and a line end, which are then behind the data, or -1, where the data are as they were.
  -- The length of the string is an `int`.
  pub append_record-Appended :
      (b : Buffer) (s : ByteString)
      → IsValid b
      → length s < 2 ^ 31
      → Appended b (decimal (length s) ++ (10 ∷ (s ++ 10 ∷ []))) (append_record R b s)
  unfolding append_record
  append_record-Appended b s v h =
      write_slot-Appended b _ (16 + length s + 1) _
        (omega (
          arith,
          length-append (decimal (length s)) (10 ∷ (s ++ 10 ∷ [])),
          length-append s (10 ∷ []),
          (length-decimal (length s) 9).1 (omega (arith, h)),
        ))
        (make_room_lem R (suc (16 + length s + 1)) b (16 + length s + 1) v (omega arith)
          (omega (arith, v.inside)))

-- `nice` leaves the buffer alone, or moves data that there are not, or data from behind the middle.
nice-cases :
    (b : Buffer)
    → (nice b ≡ b)
      ⊎ (((b.size ≡ 0) × (nice b ≡ record b { offset = 0 }))
          ⊎ ((b.total / 2 < b.offset)
              × (nice b ≡ record b { buf = copy_to b.buf 0 (content b); offset = 0 })))
unfolding nice
nice-cases b = elim (Bool-cases (ltb 0 b.size)) [
  | inl e ↦
      let filled : (b.size == 0) ≡ false = ground arith in
      elim (Bool-cases (ltb (b.total / 2) b.offset)) [
        | inl m ↦ inr (inr (ltb→lt _ _ m, rw (e, m, filled, if◌then◌else◌) refl))
        | inr m ↦ inl (rw (m, filled, if◌then◌else◌) refl)
      ]
  | inr e ↦
      let empty : b.size ≡ 0 = ground arith in
      inr (inl (empty, rw (e, (==_iff _ _).1 empty, if◌then◌else◌) refl))
]

-- `nice` keeps the data and a valid buffer. Where it moves them, they do not overlap the place they go
-- to, as `memcpy` wants.
pub nice-IsValid :
    (b : Buffer)
    → IsValid b
    → IsValid (nice b)
      × (content (nice b) ≡ content b)
      × (((nice b).offset ≡ b.offset) ⊎ (b.size ≤ b.offset))
nice-IsValid b v = elim (nice-cases b) [
  | inl e ↦ rw e (v, refl, inl refl)
  | inr (inl (empty, e)) ↦ rw e (
    record { block = v.block; inside = omega (arith, v.inside); fits = v.fits },
    rw empty refl,
    inr (omega (arith, empty)),
  )
  | inr (inr (far, e)) ↦
      let size : length (content b) ≡ b.size = omega (
        arith,
        length-take b.size (drop b.offset b.buf),
        length-drop b.offset b.buf,
        v.inside,
        v.block,
      ) in
      rw e (
        record {
          block =
              length-copy_to b.buf 0 (content b) (omega (arith, size, v.inside, v.block)) ∙ v.block;
          inside = omega (arith, v.inside);
          fits = v.fits;
        },
        subst (λ k. take k (content b ++ drop (0 + length (content b)) b.buf) ≡ content b) size
            (take-length_append (content b) _),
        inr (omega (arith, far, v.inside)),
      )
]
