-- ===== src/Net/Receive/Send.antt =====
-- What `Link::send` of ssdb/src/net/link.cpp hands to libuv.
use model_lib.Prelude.{
  ℕ, suc, ◌+◌, ◌*◌, ◌^◌, ◌≤◌, ◌<◌, ◌≡◌, refl, ap, ◌∙◌, some, List, [], ◌∷◌, ◌++◌, arith, length,
  append_assoc,
}
use model_lib.Prelude.Text.{ByteString}
use model_lib.Util.Number.RoundTrip.{decimal-cons}
use model_lib.Util.Buffer.{Buffer, Realloc, content}
use model_lib.Util.Buffer.Space.{IsValid}
use model_lib.Util.Buffer.Record.{record-append}
use model_lib.Util.Buffer.Memory.{IsGenerous, append-Wrote, append_record-Wrote, record_fits}
use model_lib.Net.Packet.{max_packet_size, encode_packet, encode_record}
use model_lib.Net.Packet.RoundTrip.{packet_size}
use model_lib.Net.Receive.{append_packet, send, and_then, sent_with, send_all}
use model_lib.Net.Receive.Whole.{AreSendable, encode_all, encode_packet-append}

-- Bytes that a packet of the strings needs at most.
abbrev pub room_for : List ByteString → ℕ
room_for [] = 1
room_for (s ∷ ss) = 17 + length s + room_for ss

-- The packet's bytes are room enough six times over.
room_for-le : (ss : List ByteString) → room_for ss ≤ 6 * packet_size ss
room_for-le [] = omega arith
room_for-le (s ∷ ss) =
    let (c, r, e, d) = decimal-cons (length s) in omega (arith, room_for-le ss, ap length e)

module _ (R : Realloc) (generous : IsGenerous R) where
  append_packet-content :
      (ss : List ByteString) (b : Buffer)
      → IsValid b
      → b.offset + b.size + room_for ss < 2 ^ 30
      → (b' : Buffer) × (append_packet R b ss ≡ some b')
        × IsValid b'
        × (content b' ≡ content b ++ encode_packet ss [])
  unfolding append_packet encode_packet encode_record
  append_packet-content [] b v h =
      let w = append-Wrote R generous b (10 ∷ []) v h in
      (w.buffer, ap (λ o. and_then R o some) w.result, w.valid, w.bytes)
  append_packet-content (s ∷ ss) b v h =
      let w = append_record-Wrote R generous b s v (omega arith) in
      let (b', e, v', c) =
        append_packet-content ss w.buffer w.valid
          (omega (arith, w.offset, w.size, record_fits s (omega arith))) in
      (
        b',
        ap (λ o. and_then R o (λ b''. append_packet R b'' ss)) w.result ∙ e,
        v',
        c
            ∙ ap (λ t. t ++ encode_packet ss []) w.bytes
            ∙ append_assoc (content b) _ (encode_packet ss [])
            ∙ ap (λ t. content b ++ t) (record-append s (encode_packet ss [])),
      )

  -- `send` hands over the packet of its strings, whole, whatever the block of malloc holds.
  pub send-encode_packet :
      (block : ByteString) (ss : List ByteString)
      → length block < 2 ^ 31
      → packet_size ss ≤ max_packet_size
      → (b : Buffer) × (send R block ss ≡ some b) × (content b ≡ encode_packet ss [])
  unfolding send
  send-encode_packet block ss h fits =
      let start : Buffer = record { buf = block; offset = 0; size = 0; total = length block } in
      let (b, e, v, c) =
        append_packet-content ss start (record { block = refl; inside = omega arith; fits = h })
          (omega (arith, fits, room_for-le ss)) in
      (b, e, c)

  -- If realloc refuses no block of fewer than 2^31 bytes, then messages that are sent one after another
  -- are the whole packets of all of them, in order, whatever the blocks of malloc hold. No message is
  -- empty, a packet has at most the 128 MB that a receiver takes, and a block of malloc has fewer than
  -- 2^31 bytes. Where realloc refuses, `send` drops the -1 of `append` and the packet may be cut.
  pub send_all-encode_all :
      (blocks : ℕ → ByteString) (ms : List (List ByteString))
      → ((i : ℕ) → length (blocks i) < 2 ^ 31)
      → AreSendable ms
      → send_all R blocks ms ≡ some (encode_all ms)
  unfolding send_all encode_all
  send_all-encode_all blocks [] h ok = refl
  send_all-encode_all blocks ([] ∷ ms) h ok = absurd ok
  send_all-encode_all blocks ((s ∷ ss) ∷ ms) h (fits, ok) =
      let (b, e, c) = send-encode_packet (blocks 0) (s ∷ ss) (h 0) fits in
      let rest = send_all-encode_all (λ i. blocks (suc i)) ms (λ i. h (suc i)) ok in
      rw (e, rest, sent_with)
        (ap (λ t. some (t ++ encode_all ms)) c
          ∙ ap some (encode_packet-append (s ∷ ss) [] (encode_all ms)))
