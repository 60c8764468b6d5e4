-- ===== src/Net/Receive/Whole.antt =====
-- Packets arrive whole and in order.
use model_lib.Prelude.{
  ℕ, zero, suc, ◌+◌, ◌≤◌, ◌<◌, ◌≡◌, ◌≢◌, refl, ap, sym, subst, ◌∙◌, some, List, [], ◌∷◌, ◌++◌,
  arith, length, length-append, append_assoc, drop, ◌==◌, if◌then◌else◌, false, true, get_or,
}
use model_lib.Prelude.Text.{ByteString}
use model_lib.Util.Buffer.{Buffer, Realloc, content, decr, append}
use model_lib.Util.Buffer.Append.{Appended, append-Appended}
use model_lib.Prelude.Int.{pos}
use model_lib.Util.Buffer.Space.{IsValid}
use model_lib.Util.Buffer.Decr.{content-split, decr-content}
use model_lib.Util.Number.{decimal, is_digit}
use model_lib.Util.Number.RoundTrip.{decimal-cons}
use model_lib.Net.Redis.Parse.{done, count_blank}
use model_lib.Net.Packet.{max_packet_size, parse_packet, encode_packet, encode_record}
use model_lib.Net.Packet.RoundTrip.{packet_size, parse_packet-encode_packet, count_blank-packet}
use model_lib.Net.Receive.{Input, request, recv_req, read_loop, on_read}

length-encode_packet :
    (ss : List ByteString) (t : ByteString)
    → length (encode_packet ss t) ≡ packet_size ss + length t
unfolding encode_packet encode_record
length-encode_packet [] t = omega arith
length-encode_packet (s ∷ ss) t = omega (
  arith,
  length-append (decimal (length s)) (10 ∷ (s ++ 10 ∷ encode_packet ss t)),
  length-append s (10 ∷ encode_packet ss t),
  length-encode_packet ss t,
)

pub encode_packet-append :
    (ss : List ByteString) (t u : ByteString) → encode_packet ss t ++ u ≡ encode_packet ss (t ++ u)
unfolding encode_packet encode_record
encode_packet-append [] t u = refl
encode_packet-append (s ∷ ss) t u =
    append_assoc (decimal (length s)) (10 ∷ (s ++ 10 ∷ encode_packet ss t)) u
    ∙ ap (λ v. decimal (length s) ++ 10 ∷ v)
        (append_assoc s (10 ∷ encode_packet ss t) u
          ∙ ap (λ v. s ++ 10 ∷ v) (encode_packet-append ss t u))

-- Taking a packet off.
decr-packet :
    (b : Buffer) (ss : List ByteString) (rest : ByteString)
    → IsValid b
    → content b ≡ encode_packet ss rest
    → IsValid (decr b (packet_size ss)) × (content (decr b (packet_size ss)) ≡ rest)
decr-packet b ss rest v e =
    decr-content b (packet_size ss) (encode_packet ss []) rest v
      (e ∙ sym (encode_packet-append ss [] rest)) (omega (arith, length-encode_packet ss []))

star-digit : is_digit b'*' ≡ false
unfolding is_digit
star-digit = refl

no_star : (s t : ByteString) → (get_or (encode_record s t) 0 0 == b'*') ≡ false
unfolding encode_record
no_star s t =
    let (c, ds, e, digit) = decimal-cons (length s) in
    let ne : c ≢ b'*' = λ i. cc (i, digit, star-digit) in
    ap (λ d. get_or (d ++ 10 ∷ (s ++ 10 ∷ t)) 0 0 == b'*') e ∙ ground (arith, ne)

packet_first :
    (s : ByteString) (ss : List ByteString) (t : ByteString) (size : ℕ)
    → (get_or (drop (count_blank (encode_packet (s ∷ ss) t) size) (encode_packet (s ∷ ss) t)) 0 0
        == b'*')
      ≡ false
unfolding encode_packet
packet_first s ss t size =
    ap (λ n. get_or (drop n (encode_record s (encode_packet ss t))) 0 0 == b'*')
      (count_blank-packet s (encode_packet ss t) size)
    ∙ no_star s (encode_packet ss t)

-- The packets of a list of requests, one behind the other.
unfoldable pub encode_all : List (List ByteString) → ByteString
encode_all [] = []
encode_all (m ∷ ms) = encode_packet m (encode_all ms)

-- A request has a first string, and its packet is not too long.
abbrev pub AreSendable : List (List ByteString) → Type 0
AreSendable [] = Unit
AreSendable ([] ∷ ms) = ⊥
AreSendable ((s ∷ ss) ∷ ms) = (packet_size (s ∷ ss) ≤ max_packet_size) × AreSendable ms

-- The requests in order.
abbrev pub proc_all : {S : Type 0} → (S → List ByteString → S) → S → List (List ByteString) → S
proc_all proc st [] = st
proc_all proc st (m ∷ ms) = proc_all proc (proc st m) ms

module _ (R : Realloc) (score : ByteString → ByteString) where
  -- A packet at the front of the data is received, and the rest stays.
  recv_req-packet :
      (input : Input) (s : ByteString) (ss : List ByteString) (rest : ByteString)
      → IsValid input.buffer
      → content input.buffer ≡ encode_packet (s ∷ ss) rest
      → packet_size (s ∷ ss) ≤ max_packet_size
      → recv_req R score input
        ≡ request (s ∷ ss) (record input { buffer = decr input.buffer (packet_size (s ∷ ss)) })
  unfolding recv_req
  recv_req-packet input s ss rest v e fits =
      let b = input.buffer in
      let n = packet_size (s ∷ ss) in
      let g = drop b.size (drop b.offset b.buf) in
      let (long, split) = content-split b v in
      let size : b.size ≡ n + length rest =
        sym long ∙ ap length e ∙ length-encode_packet (s ∷ ss) rest in
      let filled : (b.size == 0) ≡ false = ground (arith, size) in
      let whole : drop b.offset b.buf ≡ encode_packet (s ∷ ss) (rest ++ g) =
        split ∙ ap (λ c. c ++ g) e ∙ encode_packet-append (s ∷ ss) rest g in
      let first : (get_or (drop (count_blank (drop b.offset b.buf) b.size) (drop b.offset b.buf)) 0
              0
            == b'*')
          ≡ false =
        ap (λ p. get_or (drop (count_blank p b.size) p) 0 0 == b'*') whole
        ∙ packet_first s ss (rest ++ g) b.size in
      let parsed : parse_packet (drop b.offset b.buf) b.size ≡ done (s ∷ ss) n =
        ap (λ p. parse_packet p b.size) whole
        ∙ ap (parse_packet (encode_packet (s ∷ ss) (rest ++ g))) size
        ∙ parse_packet-encode_packet s ss (rest ++ g) (length rest) fits in
      rw (filled, first, if◌then◌else◌, parsed) refl

  recv_req-empty :
      (input : Input)
      → IsValid input.buffer
      → content input.buffer ≡ []
      → recv_req R score input ≡ request [] input
  unfolding recv_req
  recv_req-empty input v e =
      let (long, split) = content-split input.buffer v in
      let empty : (input.buffer.size == 0) ≡ true = ground (arith, long, ap length e) in
      rw (empty, if◌then◌else◌) refl

  module _ {S : Type 0} (proc : S → List ByteString → S) where
    -- The loop of `onRead` on data that are packets gives every request to `proc`, whole and in order,
    -- and leaves the link open with no data in its buffer. One round for each request and one more
    -- are enough. Each request has a string, and at most MAX_PACKET_SIZE bytes as a packet.
    pub read_loop-encode_all :
        (ms : List (List ByteString)) (fuel : ℕ) (st : S) (input : Input)
        → length ms < fuel
        → AreSendable ms
        → IsValid input.buffer
        → content input.buffer ≡ encode_all ms
        → (left : Input) × (read_loop R score proc fuel st input
            ≡ some (proc_all proc st ms, some left))
          × IsValid left.buffer
          × (content left.buffer ≡ [])
    unfolding read_loop encode_all
    read_loop-encode_all ms zero st input h ok v e = absurd (omega arith)
    read_loop-encode_all [] (suc fuel) st input h ok v e =
        (input, rw (recv_req-empty input v e, read_loop) refl, v, e)
    read_loop-encode_all ([] ∷ ms) (suc fuel) st input h ok v e = elim ok [ ]
    read_loop-encode_all ((s ∷ ss) ∷ ms) (suc fuel) st input h (fits, ok) v e =
        let b = input.buffer in
        let (v', e') = decr-packet b (s ∷ ss) (encode_all ms) v e in
        let (left, r, w, d) =
          read_loop-encode_all ms fuel (proc st (s ∷ ss))
            (record input { buffer = decr b (packet_size (s ∷ ss)) }) (omega arith) ok v' e' in
        (left, rw (recv_req-packet input s ss (encode_all ms) v e fits, read_loop) r, w, d)

    on_read-append :
        (fuel n : ℕ) (st : S) (input : Input) (b : Buffer) (bytes : ByteString)
        → append R input.buffer bytes ≡ some (pos n, b)
        → on_read R score proc fuel st input bytes
          ≡ read_loop R score proc fuel st (record input { buffer = b })
    unfolding on_read
    on_read-append fuel n st input b bytes a = rw (a, on_read) refl

    -- `onRead` with bytes behind which the data are packets: if the bytes could be appended, every
    -- request is given to `proc`, whole and in order, and the link stays open with no data in its
    -- buffer.
    pub on_read-encode_all :
        (ms : List (List ByteString)) (fuel n : ℕ) (st : S) (input : Input) (b : Buffer)
        (bytes : ByteString)
        → length ms < fuel
        → AreSendable ms
        → IsValid input.buffer
        → content input.buffer ++ bytes ≡ encode_all ms
        → append R input.buffer bytes ≡ some (pos n, b)
        → (left : Input) × (on_read R score proc fuel st input bytes
            ≡ some (proc_all proc st ms, some left))
          × IsValid left.buffer
          × (content left.buffer ≡ [])
    on_read-encode_all ms fuel n st input b bytes h ok v e a =
        let (m, w, c) =
          subst (Appended input.buffer bytes) a (append-Appended R input.buffer bytes v) in
        let (left, r, w2, d) =
          read_loop-encode_all ms fuel st (record input { buffer = b }) h ok w (c ∙ e) in
        (left, on_read-append fuel n st input b bytes a ∙ r, w2, d)
