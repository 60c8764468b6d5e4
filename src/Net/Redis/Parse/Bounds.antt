-- ===== src/Net/Redis/Parse/Bounds.antt =====
-- `parse_req` always returns, and stays within the data of the buffer.
use model_lib.Prelude.{
  ℕ, zero, suc, ◌+◌, ◌-◌, ◌≤◌, ◌<◌, ◌≡◌, refl, Option, none, some, List, [], ◌∷◌, ◌++◌, arith,
  length, Bool-cases, inl, inr, leb, ◌==◌, length-take, take, drop, get_or,
}
use model_lib.Prelude.Int.{ℤ, pos, negsuc}
use model_lib.Prelude.Text.{ByteString}
use model_lib.Util.Number.{strtol, to_int}
use model_lib.Net.Redis.Parse.{
  parse_req, parse_loop, Again, at_line, at_number, find_lf, count_blank, take_arg, line_end,
  Parsed, done, more, bad, out_of_fuel,
}

-- The bytes that a list of arguments holds.
pub total_length : List ByteString → ℕ
total_length [] = 0
total_length (a ∷ as') = length a + total_length as'

total_length-append :
    (xs : List ByteString) (a : ByteString)
    → total_length (xs ++ a ∷ []) ≡ total_length xs + length a
unfolding total_length
total_length-append [] a = omega arith
total_length-append (x ∷ xs) a = omega (arith, total_length-append xs a)

-- The parser returned. A request has an argument, and its bytes are among the `size` of the data.
abbrev pub IsWithin : ℕ → Parsed → Type 0
IsWithin size bad = Unit
IsWithin size more = Unit
IsWithin size (done [] n) = ⊥
IsWithin size (done (a ∷ args) n) = (n ≤ size) × (total_length (a ∷ args) < n)
IsWithin size out_of_fuel = ⊥

find_lf-lt : (ptr : ByteString) (size i : ℕ) → find_lf ptr size ≡ some i → i < size
unfolding find_lf
find_lf-lt ptr zero i h = ground arith
find_lf-lt [] (suc size) i h = ground arith
find_lf-lt (c ∷ ptr) (suc size) zero h = omega arith
find_lf-lt (c ∷ ptr) (suc size) (suc i) h = ground (arith, find_lf-lt ptr size i)

count_blank-le : (ptr : ByteString) (size : ℕ) → count_blank ptr size ≤ size
unfolding count_blank
count_blank-le ptr zero = omega arith
count_blank-le [] (suc size) = omega arith
count_blank-le (c ∷ ptr) (suc size) = ground (arith, count_blank-le ptr size)

IsWithin-snoc :
    (total n : ℕ) (recv : List ByteString) (a : ByteString)
    → n ≤ total
    → total_length recv + length a < n
    → IsWithin total (done (recv ++ a ∷ []) n)
IsWithin-snoc total n [] a h k = unfold total_length in omega arith
IsWithin-snoc total n (x ∷ xs) a h k = omega (arith, total_length-append (x ∷ xs) a)

line_end_bounds :
    (ptr : ByteString) (size : ℕ)
    → (1 ≤ line_end ptr size) × (line_end ptr size ≤ 2) × (0 < size → line_end ptr size ≤ size)
unfolding line_end
line_end_bounds ptr size = ground arith

module _ (total fuel : ℕ) (again : Again)
    (ih : (ptr : ByteString) (size num parsed : ℕ) (recv : List ByteString)
      → size < fuel
      → parsed + size ≤ total
      → total_length recv ≤ parsed
      → IsWithin total (again ptr size num parsed recv)) where
  take_arg-IsWithin :
      (ptr : ByteString) (size len num parsed : ℕ) (recv : List ByteString)
      → size < fuel
      → parsed + size ≤ total
      → total_length recv ≤ parsed
      → IsWithin total (take_arg again ptr size len num parsed recv)
  unfolding take_arg
  take_arg-IsWithin ptr size len num parsed recv lt le tl =
      let e = line_end (drop len ptr) (size - len) in
      elim (Bool-cases (leb size len)) [
        | inl short ↦ rw short tt
        | inr whole ↦ rw whole (elim (Bool-cases (num == 1)) [
          | inl last ↦ rw last (
              IsWithin-snoc total (parsed + (len + e)) recv (take len ptr)
                (ground (arith, line_end_bounds (drop len ptr) (size - len)))
                (ground
                  (arith, line_end_bounds (drop len ptr) (size - len), length-take {0} len ptr)))
          | inr next ↦ rw next (
              ih (drop (len + e) ptr) (size - (len + e)) (num - 1) (parsed + (len + e))
                (recv ++ take len ptr ∷ [])
                (ground (arith, line_end_bounds (drop len ptr) (size - len)))
                (ground (arith, line_end_bounds (drop len ptr) (size - len)))
                (ground (arith, total_length-append recv (take len ptr), length-take {0} len ptr)))
        ])
      ]

  at_number-IsWithin :
      (ptr : ByteString) (size num parsed : ℕ) (recv : List ByteString) (z : ℤ)
      → size < fuel
      → parsed + size ≤ total
      → total_length recv ≤ parsed
      → IsWithin total (at_number again ptr size num parsed recv z)
  unfolding at_number
  at_number-IsWithin ptr size num parsed recv (negsuc n) lt le tl = tt
  at_number-IsWithin ptr size num parsed recv (pos len) lt le tl =
      ground (arith, ih ptr size len parsed recv, take_arg-IsWithin ptr size len num parsed recv)

  at_line-IsWithin :
      (ptr : ByteString) (size num parsed : ℕ) (recv : List ByteString) (o : Option ℕ)
      → size ≤ fuel
      → parsed + size ≤ total
      → total_length recv ≤ parsed
      → ((i : ℕ) → o ≡ some i → i < size)
      → IsWithin total (at_line again ptr size num parsed recv o)
  unfolding at_line
  at_line-IsWithin ptr size num parsed recv none lt le tl h = tt
  at_line-IsWithin ptr size num parsed recv (some i) lt le tl h =
      let near = h i refl in
      at_number-IsWithin (drop (i + 1) ptr) (size - (i + 1)) num (parsed + (i + 1)) recv
        (to_int (strtol (drop 1 ptr))) (omega arith) (omega arith) (omega arith)

parse_loop-IsWithin :
    (fuel total : ℕ) (ptr : ByteString) (size num parsed : ℕ) (recv : List ByteString)
    → size < fuel
    → parsed + size ≤ total
    → total_length recv ≤ parsed
    → IsWithin total (parse_loop fuel ptr size num parsed recv)
unfolding parse_loop
parse_loop-IsWithin zero total ptr size num parsed recv lt le tl = absurd (omega arith)
parse_loop-IsWithin (suc fuel) total ptr zero num parsed recv lt le tl = tt
parse_loop-IsWithin (suc fuel) total ptr (suc size) num parsed recv lt le tl =
    at_line-IsWithin total fuel (parse_loop fuel) (parse_loop-IsWithin fuel total) ptr (suc size)
      num parsed recv (find_lf ptr (suc size)) (omega arith) le tl
      (λ i e. find_lf-lt ptr (suc size) i e)

-- `parse_req` returns for every buffer. Where it returns a request, that has an argument, at most
-- the `size` bytes of data are taken off the buffer, and the arguments are shorter than these.
pub parse_req-IsWithin : (ptr : ByteString) (size : ℕ) → IsWithin size (parse_req ptr size)
unfolding parse_req
parse_req-IsWithin ptr size =
    let blank = count_blank ptr size in
    let run =
      parse_loop-IsWithin (suc size) size (drop blank ptr) (size - blank) 0 blank [] (omega arith)
        (omega (arith, count_blank-le ptr size)) (unfold total_length in omega arith) in
    elim (Bool-cases (get_or (drop blank ptr) 0 0 == b'*')) [
      | inl star ↦ rw star run
      | inr other ↦ rw other tt
    ]
