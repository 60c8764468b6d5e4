-- ===== src/Util/Buffer/Record.antt =====
-- `Buffer::read_record` of ssdb/src/util/bytes.cpp, and what `append_record` wrote.
use model_lib.Prelude.{
  ℕ, suc, ◌+◌, ◌^◌, ◌≤◌, ◌<◌, ◌≡◌, ◌≢◌, refl, ap, sym, ◌∙◌, subst, inl, Option, none, some, true,
  false, not, [], ◌∷◌, ◌++◌, ◌==◌, ltb, leb, arith, if◌then◌else◌, get_or, take, drop, length,
  length-append, append_assoc, append-nil, take-length_append, All,
}
use model_lib.Prelude.Int.{ℤ, pos, negsuc}
use model_lib.Prelude.Text.{ByteString}
use model_lib.Util.Number.{is_digit, starts_with_digit, decimal, strtol, to_int, atoi}
use model_lib.Util.Number.Digits.{length-decimal}
use model_lib.Util.Number.RoundTrip.{decimal-cons, decimal-Lacks, to_int-strtol-decimal}
use model_lib.Util.Buffer.{Buffer, Realloc, content, decr, append_record}
use model_lib.Util.Buffer.Space.{IsValid}
use model_lib.Util.Buffer.Decr.{content-split, decr-content, drop-exact}
use model_lib.Util.Buffer.Append.{Appended, append_record-Appended}

-- 1 with the string and the buffer behind the record; 0; -1. `overflow` is a sum that no `int` holds.
pub data Reading : Type 0 where
  record_read : ByteString → Buffer → Reading
  incomplete : Reading
  invalid : Reading
  overflow : Reading

-- `memchr(s, '\n', n)` for the `n` bytes of `s`, as a position.
unfoldable pub line_end_at : ByteString → Option ℕ
line_end_at [] = none
line_end_at (c ∷ s) =
    let rest = line_end_at s in
    if c == 10 then some 0 else elim rest [ none ↦ none | some i ↦ some (suc i) ]

-- The end of the string at `n` bytes: a line end, with a carriage return or without.
abbrev pub at_end : Buffer → ℕ → ByteString → Reading
at_end b n s =
    if get_or (content b) n 0 == 10
    then record_read s (decr b (n + 1))
    else if not (get_or (content b) n 0 == 13)
    then invalid
    else if leb (2 ^ 31) (n + 2)
    then overflow
    else if not (leb (n + 2) b.size)
    then incomplete
    else if get_or (content b) (n + 1) 0 == 10
    then record_read s (decr b (n + 2))
    else invalid

-- The rest, with the length of the head and the number in it.
abbrev pub with_length : Buffer → ℕ → ℤ → Reading
with_length b head_len (negsuc n) = invalid
with_length b head_len (pos len) =
    if leb (2 ^ 31) (head_len + len + 1)
    then overflow
    else if leb (head_len + len + 1) b.size
    then at_end b (head_len + len) (take len (drop head_len (content b)))
    else incomplete

-- `head_str` has 20 bytes.
abbrev pub with_head : Buffer → Option ℕ → Reading
with_head b none = incomplete
with_head b (some i) =
    if not (is_digit (get_or (content b) 0 0))
    then invalid
    else if ltb 20 (i + 1 + 1)
    then invalid
    else with_length b (i + 1) (atoi (take i (content b)))

unfoldable pub read_record : Buffer → Reading
unfolding line_end_at
read_record b = with_head b (line_end_at (content b))

line_end_at-Lacks :
    (s t : ByteString) → All (λ c. c ≢ 10) s → line_end_at (s ++ 10 ∷ t) ≡ some (length s)
unfolding line_end_at
line_end_at-Lacks [] t h = refl
line_end_at-Lacks (c ∷ s) t (h, hs) =
    let e : (c == 10) ≡ false = ground (arith, h) in
    rw (e, if◌then◌else◌, line_end_at-Lacks s t hs) refl

get_or-length_append : (s t : ByteString) (c d : ℕ) → get_or (s ++ c ∷ t) (length s) d ≡ c
get_or-length_append [] t c d = refl
get_or-length_append (x ∷ s) t c d = get_or-length_append s t c d

-- A record at the front of the data, in the layout of `append_record`.
abbrev pub record_of : ByteString → ByteString → ByteString
record_of s t = decimal (length s) ++ (10 ∷ (s ++ 10 ∷ t))

pub record-append : (s t : ByteString) → record_of s [] ++ t ≡ record_of s t
record-append s t =
    append_assoc (decimal (length s)) (10 ∷ (s ++ 10 ∷ [])) t
    ∙ ap (λ u. decimal (length s) ++ (10 ∷ u)) (append_assoc s (10 ∷ []) t)

length-record_of :
    (s t : ByteString)
    → length (record_of s t) ≡ length (decimal (length s)) + (1 + (length s + (1 + length t)))
length-record_of s t =
    omega (arith, length-append (decimal (length s)) (10 ∷ (s ++ 10 ∷ t)), length-append s (10 ∷ t))

-- The string of a record stands behind its head.
record-parts :
    (s t : ByteString)
    → (take (length (decimal (length s))) (record_of s t) ≡ decimal (length s))
      × (take (length s) (drop (length (decimal (length s)) + 1) (record_of s t)) ≡ s)
      × (get_or (record_of s t) (length (decimal (length s)) + 1 + length s) 0 ≡ 10)
record-parts s t =
    let head = decimal (length s) ++ 10 ∷ [] in
    let split : record_of s t ≡ head ++ (s ++ 10 ∷ t) =
      sym (append_assoc (decimal (length s)) (10 ∷ []) (s ++ 10 ∷ t)) in
    let n : length (decimal (length s)) + 1 ≡ length head =
      omega (arith, length-append (decimal (length s)) (10 ∷ [])) in
    let long : length (decimal (length s)) + 1 + length s ≡ length (head ++ s) =
      omega (arith, n, length-append head s) in
    (
      take-length_append (decimal (length s)) _,
      ap (take (length s))
            (ap (drop (length (decimal (length s)) + 1)) split ∙ drop-exact _ head (s ++ 10 ∷ t) n)
          ∙ take-length_append s (10 ∷ t),
      ap (λ u. get_or u (length (decimal (length s)) + 1 + length s) 0)
            (split ∙ sym (append_assoc head s (10 ∷ t)))
          ∙ ap (λ k. get_or ((head ++ s) ++ 10 ∷ t) k 0) long
          ∙ get_or-length_append (head ++ s) t 10 0,
    )

decimal_first : (n : ℕ) (t : ByteString) → is_digit (get_or (decimal n ++ t) 0 0) ≡ true
decimal_first n t =
    let (c, r, e, d) = decimal-cons n in ap (λ u. is_digit (get_or (u ++ t) 0 0)) e ∙ d

atoi-decimal : (n : ℕ) → n < 2 ^ 31 → atoi (decimal n) ≡ pos n
unfolding atoi starts_with_digit
atoi-decimal n h =
    ap (λ u. to_int (strtol u)) (sym (append-nil (decimal n))) ∙ to_int-strtol-decimal n [] h refl

-- A record at the front of the data is read, and taken off the buffer whole, whatever follows it.
pub read_record-record :
    (b : Buffer) (s t : ByteString)
    → IsValid b
    → content b ≡ record_of s t
    → (b' : Buffer) × (read_record b ≡ record_read s b') × IsValid b' × (content b' ≡ t)
unfolding read_record
read_record-record b s t v e =
    let n = length s in
    let k = length (decimal n) in
    let (head, str, last) = record-parts s t in
    let size : b.size ≡ k + 1 + n + 1 + length t =
      omega (arith, (content-split b v).0, ap length e, length-record_of s t) in
    let few : k ≤ 10 = (length-decimal n 9).1 (omega (arith, size, v.inside, v.fits)) in
    let found : line_end_at (content b) ≡ some k =
      ap line_end_at e
      ∙ line_end_at-Lacks (decimal n) (s ++ 10 ∷ t) (decimal-Lacks 10 n (inl (omega arith))) in
    let digit : is_digit (get_or (content b) 0 0) ≡ true =
      ap (λ u. is_digit (get_or u 0 0)) e ∙ decimal_first n _ in
    let short : ltb 20 (k + 1 + 1) ≡ false = ground (arith, few) in
    let number : atoi (take k (content b)) ≡ pos n =
      ap (λ u. atoi (take k u)) e
      ∙ ap atoi head
      ∙ atoi-decimal n (omega (arith, size, v.inside, v.fits)) in
    let fits : leb (2 ^ 31) (k + 1 + n + 1) ≡ false = ground (arith, size, v.inside, v.fits) in
    let there : leb (k + 1 + n + 1) b.size ≡ true = ground (arith, size) in
    let line_end : (get_or (content b) (k + 1 + n) 0 == 10) ≡ true =
      ap (λ u. get_or u (k + 1 + n) 0 == 10) e ∙ ap (λ c. c == 10) last in
    let string : take n (drop (k + 1) (content b)) ≡ s =
      ap (λ u. take n (drop (k + 1) u)) e ∙ str in
    let (v', rest) =
      decr-content b (k + 1 + n + 1) (record_of s []) t v (e ∙ sym (record-append s t))
        (omega (arith, length-record_of s [])) in
    (
      decr b (k + 1 + n + 1),
      rw (found, with_head, digit, short, number, if◌then◌else◌, fits, there, line_end, string)
          refl,
      v',
      rest,
    )

-- What `append_record` puts into an empty buffer `read_record` reads back, and nothing is left.
pub read_record-append_record :
    (R : Realloc) (b b' : Buffer) (s : ByteString) (n : ℕ)
    → IsValid b
    → content b ≡ []
    → length s < 2 ^ 31
    → append_record R b s ≡ some (pos n, b')
    → (left : Buffer) × (read_record b' ≡ record_read s left) × IsValid left × (content left ≡ [])
read_record-append_record R b b' s n v empty h e =
    let (m, v', c) = subst (Appended b (record_of s [])) e (append_record-Appended R b s v h) in
    read_record-record b' s [] v' (c ∙ ap (λ u. u ++ record_of s []) empty)
