-- ===== src/Net/Redis/Parse/RoundTrip.antt =====
-- What a Redis client encodes is parsed back, whatever follows it in the buffer.
use model_lib.Prelude.{
  ℕ, zero, suc, ◌+◌, ◌-◌, ◌^◌, ◌≤◌, ◌<◌, ◌≡◌, ◌≢◌, refl, ap, ◌∙◌, List, [], ◌∷◌, ◌++◌, some, arith,
  All, length, length-append, drop, append_assoc, take-length_append, drop-length_append, ltb, leb,
  ◌==◌, if◌then◌else◌, false, true, get_or,
}
use model_lib.Prelude.Int.{pos}
use model_lib.Prelude.Text.{ByteString}
use model_lib.Util.Number.{strtol, to_int, decimal, starts_with_digit}
use model_lib.Util.Number.RoundTrip.{to_int-strtol-decimal, decimal-Lacks}
use model_lib.Net.Redis.Parse.{
  parse_req, parse_loop, Again, at_line, at_number, find_lf, count_blank, take_arg, line_end, done,
}
use model_lib.Net.Redis.Parse.Encode.{encode_request, encode_arg, encode_args}

-- A line `<c><digits>\r\n` that stands before `t`.
abbrev line : ℕ → ℕ → ByteString → ByteString
line c n t = c ∷ (decimal n ++ 13 ∷ 10 ∷ t)

find_lf-skip :
    (d t : ByteString) (size : ℕ)
    → All (λ c. c ≢ 10) d
    → length d + 2 ≤ size
    → find_lf (d ++ 13 ∷ 10 ∷ t) size ≡ some (length d + 1)
unfolding find_lf
find_lf-skip [] t zero h le = absurd (omega arith)
find_lf-skip [] t (suc zero) h le = absurd (omega arith)
find_lf-skip [] t (suc (suc size)) h le = refl
find_lf-skip (c ∷ d) t zero h le = absurd (omega arith)
find_lf-skip (c ∷ d) t (suc size) (hc, hd) le =
    ground (arith, find_lf-skip d t size hd (omega arith))

drop-skip : (d t : ByteString) (m : ℕ) → m ≡ length d + 2 → drop m (d ++ 13 ∷ 10 ∷ t) ≡ t
drop-skip [] t m h = rw h
drop-skip (c ∷ d) t zero h = absurd (omega arith)
drop-skip (c ∷ d) t (suc m) h = drop-skip d t m (omega arith)

-- The length of a line.
abbrev span : ℕ → ℕ
span n = length (decimal n) + 3

module _ (c n : ℕ) (t : ByteString) (size : ℕ) (hc : c ≢ 10) (fits : span n ≤ suc size) where
  find_lf-line : find_lf (line c n t) (suc size) ≡ some (length (decimal n) + 2)
  find_lf-line =
      let e =
        find_lf-skip (c ∷ decimal n) t (suc size) (hc, decimal-Lacks 10 n (omega arith))
          (omega arith) in
      e ∙ ap some (omega arith)

drop-line : (c n : ℕ) (t : ByteString) → drop (length (decimal n) + 2 + 1) (line c n t) ≡ t
drop-line c n t = drop-skip (c ∷ decimal n) t _ (omega arith)

strtol-line :
    (c n : ℕ) (t : ByteString) → n < 2 ^ 31 → to_int (strtol (drop 1 (line c n t))) ≡ pos n
strtol-line c n t h = to_int-strtol-decimal n (13 ∷ 10 ∷ t) h (unfold starts_with_digit in refl)

-- One round of the loop at a line with the number `n`, `k` bytes of data behind it.
line_step :
    (c n k fuel size num parsed : ℕ) (t : ByteString) (recv : List ByteString)
    → c ≢ 10
    → n < 2 ^ 31
    → size ≡ span n + k
    → parse_loop (suc fuel) (line c n t) size num parsed recv
      ≡ at_number (parse_loop fuel) t k num (parsed + span n) recv (pos n)
unfolding parse_loop at_line
line_step c n k fuel zero num parsed t recv hc h e = absurd (omega arith)
line_step c n k fuel (suc size) num parsed t recv hc h e =
    let e1 : length (decimal n) + 2 + 1 ≡ span n = omega arith in
    let e2 : suc size - span n ≡ k = omega arith in
    rw (find_lf-line c n t size hc (omega arith), drop-line c n t, strtol-line c n t h, e1, e2)

-- The first line sets the number of arguments.
header_step :
    (fuel n k parsed : ℕ) (t : ByteString) (recv : List ByteString)
    → n < 2 ^ 31
    → n ≢ 0
    → parse_loop (suc fuel) (line b'*' n t) (span n + k) 0 parsed recv
      ≡ parse_loop fuel t k n (parsed + span n) recv
unfolding at_number
header_step fuel n k parsed t recv h pos_n =
    ground (arith, line_step b'*' n k fuel (span n + k) 0 parsed t recv)

-- The length of an encoded argument.
abbrev arg_span : ByteString → ℕ
arg_span a = span (length a) + (length a + 2)

-- An argument that is complete is taken whole.
take_arg-whole :
    (again : Again) (a t : ByteString) (k num parsed : ℕ) (recv : List ByteString)
    → take_arg again (a ++ 13 ∷ 10 ∷ t) (length a + 2 + k) (length a) num parsed recv ≡ (
        if num == 1
        then done (recv ++ a ∷ []) (parsed + (length a + 2))
        else again t k (num - 1) (parsed + (length a + 2)) (recv ++ a ∷ []))
unfolding take_arg line_end
take_arg-whole again a t k num parsed recv =
    let e : length a + 2 + k - length a ≡ suc (suc k) = omega arith in
    let e1 : leb (length a + 2 + k) (length a) ≡ false = ground arith in
    let e2 : ltb 1 (suc (suc k)) ≡ true = ground arith in
    let e3 : length a + 2 + k - (length a + 2) ≡ k = omega arith in
    rw (take-length_append, drop-length_append, e, e1, e2, e3, drop-skip a t (length a + 2) refl)

arg_step :
    (a t : ByteString) (fuel k num parsed : ℕ) (recv : List ByteString)
    → length a < 2 ^ 31
    → parse_loop (suc fuel) (encode_arg a t) (arg_span a + k) (suc num) parsed recv ≡ (
        if num == 0
        then done (recv ++ a ∷ []) (parsed + arg_span a)
        else parse_loop fuel t k num (parsed + arg_span a) (recv ++ a ∷ []))
unfolding encode_arg at_number
arg_step a t fuel k num parsed recv h =
    let step =
      line_step b'$' (length a) (length a + 2 + k) fuel (arg_span a + k) (suc num) parsed
        (a ++ 13 ∷ 10 ∷ t) recv (omega arith) h (omega arith) in
    rw step (
      ground
        (arith, take_arg-whole (parse_loop fuel) a t k (suc num) (parsed + span (length a)) recv))

args_span : List ByteString → ℕ
args_span [] = 0
args_span (a ∷ as') = arg_span a + args_span as'

abbrev pub FitsInt : ByteString → Type 0
FitsInt a = length a < 2 ^ 31

args_step :
    (a : ByteString) (as' : List ByteString) (t : ByteString) (fuel k parsed : ℕ)
    (recv : List ByteString)
    → All FitsInt (a ∷ as')
    → length (a ∷ as') ≤ fuel
    → parse_loop fuel
        (encode_args (a ∷ as') t)
        (args_span (a ∷ as') + k)
        (length (a ∷ as'))
        parsed
        recv
      ≡ done (recv ++ a ∷ as') (parsed + args_span (a ∷ as'))
unfolding encode_args args_span
args_step a as' t zero k parsed recv h le = absurd (omega arith)
args_step a [] t (suc fuel) k parsed recv (ha, _) le =
    ground (arith, arg_step a t fuel k 0 parsed recv)
args_step a (b ∷ bs) t (suc fuel) k parsed recv (ha, hs) le =
    let e : args_span (a ∷ b ∷ bs) + k ≡ arg_span a + (args_span (b ∷ bs) + k) = omega arith in
    ground (
      arith,
      e,
      arg_step a (encode_args (b ∷ bs) t) fuel (args_span (b ∷ bs) + k) (length (b ∷ bs)) parsed
          recv,
      args_step b bs t fuel k (parsed + arg_span a) (recv ++ a ∷ []),
      append_assoc recv (a ∷ []) (b ∷ bs),
    )

length-encode_arg : (a rest : ByteString) → length (encode_arg a rest) ≡ arg_span a + length rest
unfolding encode_arg
length-encode_arg a rest = omega (
  arith,
  length-append {0} (decimal (length a)) (13 ∷ 10 ∷ (a ++ 13 ∷ 10 ∷ rest)),
  length-append {0} a (13 ∷ 10 ∷ rest),
)

length-encode_args :
    (args : List ByteString) (rest : ByteString)
    → length (encode_args args rest) ≡ args_span args + length rest
unfolding encode_args args_span
length-encode_args [] rest = omega arith
length-encode_args (a ∷ args) rest =
    omega (arith, length-encode_arg a (encode_args args rest), length-encode_args args rest)

length-encode_request :
    (args : List ByteString) → length (encode_request args []) ≡ span (length args) + args_span args
unfolding encode_request
length-encode_request args = omega (
  arith,
  length-append {0} (decimal (length args)) (13 ∷ 10 ∷ encode_args args []),
  length-encode_args args [],
)

count_blank-star : (s : ByteString) (size : ℕ) → count_blank (b'*' ∷ s) size ≡ 0
unfolding count_blank
count_blank-star s zero = refl
count_blank-star s (suc size) = refl

length-le-args_span : (args : List ByteString) → length args ≤ args_span args
unfolding args_span
length-le-args_span [] = omega arith
length-le-args_span (a ∷ args) = omega (arith, length-le-args_span args)

blank-request :
    (args : List ByteString) (rest : ByteString) (size : ℕ)
    → count_blank (encode_request args rest) size ≡ 0
unfolding encode_request
blank-request args rest size = count_blank-star _ size

star-request :
    (args : List ByteString) (rest : ByteString) → get_or (encode_request args rest) 0 0 ≡ b'*'
unfolding encode_request
star-request args rest = refl

-- The loop on a whole request.
loop-encode_request :
    (a : ByteString) (as' : List ByteString) (rest : ByteString) (k total : ℕ)
    → length (a ∷ as') < 2 ^ 31
    → All FitsInt (a ∷ as')
    → total ≡ span (length (a ∷ as')) + args_span (a ∷ as')
    → parse_loop (suc (total + k)) (encode_request (a ∷ as') rest) (total + k) 0 0 []
      ≡ done (a ∷ as') total
unfolding encode_request
loop-encode_request a as' rest k total n h e =
    let n' = length (a ∷ as') in
    let left = args_span (a ∷ as') + k in
    let e1 : total + k ≡ span n' + left = omega arith in
    ground (
      arith,
      e1,
      header_step (total + k) n' left 0 (encode_args (a ∷ as') rest) [],
      args_step a as' rest (total + k) k (span n') [] h,
      length-le-args_span (a ∷ as'),
    )

-- A request of at least one argument that a client encoded is parsed to its arguments, and exactly
-- its bytes are taken off the buffer: whatever data (`k` bytes of it) or garbage follows, if the
-- number of arguments and each length fit an `int`.
pub parse_req-encode_request :
    (args : List ByteString) (rest : ByteString) (k : ℕ)
    → args ≢ []
    → length args < 2 ^ 31
    → All FitsInt args
    → parse_req (encode_request args rest) (length (encode_request args []) + k)
      ≡ done args (length (encode_request args []))
unfolding parse_req
parse_req-encode_request [] rest k ne n h = absurd (ne refl)
parse_req-encode_request (a ∷ as') rest k ne n h =
    let total = length (encode_request (a ∷ as') []) in
    let e : total + k - 0 ≡ total + k = omega arith in
    rw (blank-request (a ∷ as') rest (total + k), star-request (a ∷ as') rest, e)
      (loop-encode_request a as' rest k total n h (length-encode_request (a ∷ as')))

append-encode_args :
    (args : List ByteString) (s t : ByteString)
    → encode_args args s ++ t ≡ encode_args args (s ++ t)
unfolding encode_args encode_arg
append-encode_args [] s t = refl
append-encode_args (a ∷ args) s t = simp (append_assoc, append-encode_args args s t)

pub append-encode_request :
    (args : List ByteString) (s t : ByteString)
    → encode_request args s ++ t ≡ encode_request args (s ++ t)
unfolding encode_request
append-encode_request args s t = simp (append_assoc, append-encode_args args s t)
