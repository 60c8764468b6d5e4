-- ===== src/Tests/Buffer.antt =====
-- Tests of the buffers of ssdb/src/util/bytes.cpp.
use mathlib.Core.Option.{some-injective}
use model_lib.Prelude.{
  ℕ, ◌-◌, ◌^◌, ◌≤◌, ◌<◌, ◌≡◌, ◌⊎◌, refl, ap, sym, ◌∙◌, Option, none, some, true, [], ◌∷◌, ◌++◌,
  arith, ltb, ltb→lt, if◌then◌else◌, Bool-cases, inl, inr, take, length, replicate, length-append,
  length-replicate, take-length_append,
}
use model_lib.Prelude.Int.{pos}
use model_lib.Prelude.Text.{ByteString, codes}
use model_lib.Util.Number.{
  decimal, is_digit, atoi, strtol, to_int, scan_number, read_sign, skip_spaces, read_digits,
  starts_with_digit,
}
use model_lib.Util.Buffer.{Buffer, Realloc, content, nice, append, append_record}
use model_lib.Util.Buffer.Memory.{IsGenerous}
use model_lib.Util.Buffer.Space.{IsValid}
use model_lib.Util.Buffer.Record.{read_record, record_read, overflow, read_record-append_record}
use model_lib.Util.Buffer.Append.{Appended, append-Appended, nice-IsValid}

-- A `realloc` that fails only where it must, and fills with zeros.
abbrev pub padded : ByteString → ℕ → Option ByteString
padded block n = if ltb n (2 ^ 63) then some (block ++ replicate (n - length block) 0) else none

pub padded-keeps :
    (block block' : ByteString) (n : ℕ)
    → padded block n ≡ some block'
    → length block ≤ n
    → (length block' ≡ n) × (take (length block) block' ≡ block) × (n < 2 ^ 63)
padded-keeps block block' n h l = elim (Bool-cases (ltb n (2 ^ 63))) [
  | inl e ↦
      let same = some-injective _ _ (rw (e, if◌then◌else◌) at h) in
      (
        ap length (sym same)
            ∙ omega (
              arith,
              length-append block (replicate (n - length block) 0),
              length-replicate {A = ℕ} (n - length block) 0,
            ),
        ap (take (length block)) (sym same) ∙ take-length_append block _,
        ltb→lt _ _ e,
      )
  | inr e ↦ cc (rw (e, if◌then◌else◌) at h)
]

abbrev pub allocator : Realloc
allocator = record { realloc = padded; realloc_keeps = padded-keeps }

pub padded-IsGenerous : IsGenerous allocator
padded-IsGenerous block n h e =
    let fits : ltb n (2 ^ 63) ≡ true = ground arith in cc (rw (fits, if◌then◌else◌) at e)

abbrev small : Buffer
small = record { buf = 7 ∷ b'h' ∷ b'i' ∷ 9 ∷ []; offset = 1; size = 2; total = 4 }

small-IsValid : IsValid small
small-IsValid = record { block = refl; inside = omega arith; fits = omega arith }

append-Appended_example : Appended small (codes " there") (append allocator small (codes " there"))
append-Appended_example = append-Appended allocator small (codes " there") small-IsValid

abbrev late : Buffer
late = record { buf = 7 ∷ 8 ∷ 9 ∷ b'x' ∷ []; offset = 3; size = 1; total = 4 }

late-IsValid : IsValid late
late-IsValid = record { block = refl; inside = omega arith; fits = omega arith }

nice-IsValid_example :
    IsValid (nice late) × (content (nice late) ≡ codes "x") × (((nice late).offset ≡ 3) ⊎ (1 ≤ 3))
nice-IsValid_example = nice-IsValid late late-IsValid

moves : content (nice late) ≡ codes "x"
unfolding nice
moves = refl

abbrev blank : Buffer
blank = record { buf = replicate 64 0; offset = 0; size = 0; total = 64 }

blank-IsValid : IsValid blank
blank-IsValid = record { block = refl; inside = omega arith; fits = omega arith }

abbrev written : Buffer
written = record {
  buf = codes "2" ++ (10 ∷ (codes "hi" ++ (10 ∷ replicate 59 0)));
  offset = 0;
  size = 5;
  total = 64;
}

blank-append_record : append_record allocator blank (codes "hi") ≡ some (pos 5, written)
unfolding append_record decimal
blank-append_record = refl

read_record-append_record_example :
    (left : Buffer) × (read_record written ≡ record_read (codes "hi") left)
    × IsValid left
    × (content left ≡ [])
read_record-append_record_example =
    read_record-append_record allocator blank written (codes "hi") 5 blank-IsValid refl
      (omega arith) blank-append_record

-- A length of INT_MAX makes the sum with the length of the head overflow.
abbrev long_header : Buffer
long_header = record { buf = codes "2147483647\n"; offset = 0; size = 11; total = 11 }

long_header_overflows : read_record long_header ≡ overflow
unfolding read_record is_digit atoi strtol to_int scan_number read_sign skip_spaces read_digits
    starts_with_digit
long_header_overflows = refl
