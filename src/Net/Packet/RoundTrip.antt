-- ===== src/Net/Packet/RoundTrip.antt =====
-- A packet in the layout of `Link::send` is received whole, whatever follows it in the buffer.
use model_lib.Prelude.{
  ℕ, zero, suc, ◌+◌, ◌-◌, ◌^◌, ◌≤◌, ◌<◌, ◌≡◌, ◌≢◌, refl, ap, sym, ◌∙◌, List, [], ◌∷◌, ◌++◌, some,
  arith, All, length, drop, append_assoc, append-nil, take-length_append, drop-length_append, ltb,
  ◌==◌, ◌&&◌, ◌||◌, if◌then◌else◌, false, true, get_or,
}
use model_lib.Prelude.Int.{pos}
use model_lib.Prelude.Text.{ByteString}
use model_lib.Util.Number.{atoi, strtol, to_int, decimal, is_digit, starts_with_digit}
use model_lib.Util.Number.RoundTrip.{to_int-strtol-decimal, decimal-Lacks, decimal-cons}
use model_lib.Util.Number.Digits.{length-decimal}
use model_lib.Net.Redis.Parse.{bad, done, find_lf, count_blank}
use model_lib.Net.Packet.{
  max_packet_size, Next, body_end, after_body, take_body, at_head, recv_loop, parse_packet,
  encode_record, encode_packet,
}

find_lf-at :
    (d t : ByteString) (size : ℕ)
    → All (λ c. c ≢ 10) d
    → length d < size
    → find_lf (d ++ 10 ∷ t) size ≡ some (length d)
unfolding find_lf
find_lf-at d t zero h le = absurd (omega arith)
find_lf-at [] t (suc size) h le = refl
find_lf-at (c ∷ d) t (suc size) (hc, hd) le = ground (arith, find_lf-at d t size hd (omega arith))

drop-after : (d t : ByteString) (c : ℕ) → drop (length d + 1) (d ++ c ∷ t) ≡ t
drop-after d t c = go d (length d + 1) (omega arith)
  where
    go : (d : ByteString) (m : ℕ) → m ≡ length d + 1 → drop m (d ++ c ∷ t) ≡ t
    go [] m h = rw h refl
    go (x ∷ d) zero h = absurd (omega arith)
    go (x ∷ d) (suc m) h = go d m (omega arith)

atoi-decimal : (n : ℕ) → n < 2 ^ 31 → atoi (decimal n) ≡ pos n
unfolding atoi
atoi-decimal n h =
    ap (λ s. to_int (strtol s)) (sym (append-nil (decimal n)))
    ∙ to_int-strtol-decimal n [] h (unfold starts_with_digit in refl)

cr-digit : is_digit 13 ≡ false
unfolding is_digit
cr-digit = refl

lf-digit : is_digit 10 ≡ false
unfolding is_digit
lf-digit = refl

body_end-lf : (t : ByteString) (k : ℕ) → body_end (10 ∷ t) (suc k) ≡ 1
unfolding body_end
body_end-lf t k = ground arith

-- A round at the length of a record.
at_head-decimal :
    (again : Next) (n size parsed : ℕ) (t : ByteString) (recv : List ByteString)
    → n < 2 ^ 31
    → at_head again (decimal n ++ 10 ∷ t) size parsed recv (some (length (decimal n)))
      ≡ take_body again t
          (size - (length (decimal n) + 1))
          (parsed + (length (decimal n) + 1))
          recv
          (pos n)
unfolding at_head
at_head-decimal again n size parsed t recv h =
    let (c, s, e, digit) = decimal-cons n in
    let first : get_or (decimal n ++ 10 ∷ t) 0 0 ≡ c = ap (λ d. get_or (d ++ 10 ∷ t) 0 0) e in
    let long : 0 < length (decimal n) = omega (arith, ap length e) in
    let short : length (decimal n) ≤ 10 = (length-decimal n 9).1 (omega (arith, h)) in
    let ne : c ≢ 13 = λ i. cc (i, digit, cr-digit) in
    let a : (length (decimal n) == 0
          || (length (decimal n) == 1 && get_or (decimal n ++ 10 ∷ t) 0 0 == 13))
        ≡ false =
      ground (arith, long, first, ne) in
    let b : ltb 19 (length (decimal n) + 1) ≡ false = ground arith in
    rw (a, first, digit, b, if◌then◌else◌, take-length_append, drop-after, atoi-decimal n h) refl

-- A body with its line end.
take_body-whole :
    (again : Next) (s t : ByteString) (k parsed : ℕ) (recv : List ByteString)
    → take_body again (s ++ 10 ∷ t) (length s + 1 + k) parsed recv (pos (length s)) ≡ (
        if ltb max_packet_size (parsed + length s + 1)
        then bad
        else again t k (parsed + length s + 1) (recv ++ s ∷ []))
unfolding take_body after_body
take_body-whole again s t k parsed recv =
    let e : ltb (length s + 1 + k) (length s) ≡ false = ground arith in
    let e1 : length s + 1 + k - length s ≡ suc k = omega arith in
    let e2 : suc k - 1 ≡ k = omega arith in
    rw (e, if◌then◌else◌, drop-length_append, take-length_append, e1, body_end-lf, e2) refl

-- The number of bytes of a packet.
abbrev pub packet_size : List ByteString → ℕ
packet_size [] = 1
packet_size (s ∷ ss) = length (decimal (length s)) + 1 + (length s + 1) + packet_size ss

-- A round takes a record.
recv_loop-record :
    (fuel k parsed : ℕ) (s t : ByteString) (recv : List ByteString)
    → length s < 2 ^ 31
    → parsed + (length (decimal (length s)) + 1 + (length s + 1)) ≤ max_packet_size
    → recv_loop
        (suc fuel)
        (encode_record s t)
        (length (decimal (length s)) + 1 + (length s + 1) + k)
        parsed
        recv
      ≡ recv_loop fuel t k
          (parsed + (length (decimal (length s)) + 1 + (length s + 1)))
          (recv ++ s ∷ [])
unfolding recv_loop encode_record
recv_loop-record fuel k parsed s t recv h fits =
    let d = length (decimal (length s)) in
    let size : d + 1 + (length s + 1) + k ≡ suc (d + (length s + 1) + k) = omega arith in
    let left : suc (d + (length s + 1) + k) - (d + 1) ≡ length s + 1 + k = omega arith in
    let found : find_lf (decimal (length s) ++ 10 ∷ (s ++ 10 ∷ t)) (suc (d + (length s + 1) + k))
        ≡ some d =
      find_lf-at (decimal (length s)) _ _ (decimal-Lacks 10 (length s) (omega arith))
        (omega arith) in
    let small : ltb max_packet_size (parsed + (d + 1) + length s + 1) ≡ false = ground arith in
    let after : parsed + (d + 1) + length s + 1 ≡ parsed + (d + 1 + (length s + 1)) = omega arith in
    rw
      (
        size,
        found,
        at_head-decimal (recv_loop fuel) (length s) _ parsed (s ++ 10 ∷ t) recv h,
        left,
        take_body-whole (recv_loop fuel) s t k (parsed + (d + 1)) recv,
        small,
        if◌then◌else◌,
        after,
      )
      refl

recv_loop-packet :
    (ss : List ByteString) (fuel k parsed : ℕ) (t : ByteString) (recv : List ByteString)
    → length ss < fuel
    → parsed + packet_size ss ≤ max_packet_size
    → recv_loop fuel (encode_packet ss t) (packet_size ss + k) parsed recv
      ≡ done (recv ++ ss) (parsed + packet_size ss)
unfolding encode_packet
recv_loop-packet ss zero k parsed t recv h fits = absurd (omega arith)
recv_loop-packet [] (suc fuel) k parsed t recv h fits =
    let one_more : 1 + k ≡ suc k = omega arith in
    rw (append-nil recv, one_more) (unfold recv_loop find_lf at_head in refl)
recv_loop-packet (s ∷ ss) (suc fuel) k parsed t recv h fits =
    let d = length (decimal (length s)) + 1 + (length s + 1) in
    let size : d + packet_size ss + k ≡ d + (packet_size ss + k) = omega arith in
    let total : parsed + d + packet_size ss ≡ parsed + (d + packet_size ss) = omega arith in
    ap (λ n. recv_loop (suc fuel) (encode_record s (encode_packet ss t)) n parsed recv) size
    ∙ recv_loop-record fuel (packet_size ss + k) parsed s (encode_packet ss t) recv (omega arith)
        (omega arith)
    ∙ recv_loop-packet ss fuel k (parsed + d) t (recv ++ s ∷ []) (omega arith) (omega arith)
    ∙ rw (append_assoc recv (s ∷ []) ss, total) refl

count_blank-digit :
    (c : ℕ) (s : ByteString) (size : ℕ) → is_digit c ≡ true → count_blank (c ∷ s) size ≡ 0
unfolding count_blank
count_blank-digit c s zero h = refl
count_blank-digit c s (suc size) h =
    let lf : c ≢ 10 = λ i. cc (i, h, lf-digit) in
    let cr : c ≢ 13 = λ i. cc (i, h, cr-digit) in ground (arith, lf, cr)

-- No byte of a packet is blank before its first record.
pub count_blank-packet :
    (s : ByteString) (t : ByteString) (size : ℕ) → count_blank (encode_record s t) size ≡ 0
unfolding count_blank encode_record
count_blank-packet s t size =
    let (c, ds, e, digit) = decimal-cons (length s) in
    ap (λ d. count_blank (d ++ 10 ∷ (s ++ 10 ∷ t)) size) e
    ∙ count_blank-digit c (ds ++ 10 ∷ (s ++ 10 ∷ t)) size digit

length-le-packet_size : (ss : List ByteString) → length ss < packet_size ss
length-le-packet_size [] = omega arith
length-le-packet_size (s ∷ ss) = omega (arith, length-le-packet_size ss)

-- A packet of one string or more is received as those strings, and taken off the buffer
-- whole, whatever follows it; a packet has at most MAX_PACKET_SIZE bytes.
pub parse_packet-encode_packet :
    (s : ByteString) (ss : List ByteString) (t : ByteString) (k : ℕ)
    → packet_size (s ∷ ss) ≤ max_packet_size
    → parse_packet (encode_packet (s ∷ ss) t) (packet_size (s ∷ ss) + k)
      ≡ done (s ∷ ss) (packet_size (s ∷ ss))
unfolding parse_packet
parse_packet-encode_packet s ss t k fits =
    let n = packet_size (s ∷ ss) in
    let whole : n + k - 0 ≡ n + k = omega arith in
    let none_parsed : 0 + n ≡ n = omega arith in
    let blank : count_blank (encode_packet (s ∷ ss) t) (n + k) ≡ 0 =
      unfold encode_packet in count_blank-packet s (encode_packet ss t) (n + k) in
    rw (blank, parse_packet, whole)
      (recv_loop-packet (s ∷ ss) (suc (n + k)) k 0 t [] (omega (arith, length-le-packet_size ss))
          (omega (arith, fits))
        ∙ ap (done (s ∷ ss)) none_parsed)
