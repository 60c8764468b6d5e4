-- ===== src/Net/Packet/Termination.antt =====
-- The loop of `recv_req` of ssdb/src/net/link.cpp ends.
use model_lib.Prelude.{
  ℕ, zero, suc, ◌+◌, ◌-◌, ◌<◌, Option, none, some, ◌&&◌, ◌||◌, List, [], ltb, ◌==◌, if◌then◌else◌,
  get_or, arith, Bool-cases, inl, inr,
}
use model_lib.Prelude.Int.{ℤ, pos, negsuc}
use model_lib.Prelude.Text.{ByteString}
use model_lib.Util.Number.{is_digit}
use model_lib.Net.Redis.Parse.{Parsed, bad, more, done, out_of_fuel, count_blank}
use model_lib.Net.Packet.{
  max_packet_size, Next, body_end, after_body, take_body, at_head, recv_loop, parse_packet,
}

abbrev pub Ends : Parsed → Type 0
Ends bad = Unit
Ends more = Unit
Ends (done recv parsed) = Unit
Ends out_of_fuel = ⊥

module _ (again : Next) (bound : ℕ)
    (ends : (head : ByteString) (size parsed : ℕ) (recv : List ByteString)
      → size < bound
      → Ends (again head size parsed recv)) where
  after_body-Ends :
      (head : ByteString) (size parsed : ℕ) (recv : List ByteString)
      → size < bound
      → Ends (after_body again head size parsed recv)
  unfolding after_body
  after_body-Ends head size parsed recv h = elim (Bool-cases (body_end head size == 0)) [
    | inl e ↦ elim (Bool-cases (ltb 1 size)) [
      | inl f ↦ rw (e, f, if◌then◌else◌) tt
      | inr f ↦ rw (e, f, if◌then◌else◌) tt
    ]
    | inr e ↦ elim (Bool-cases (ltb max_packet_size (parsed + body_end head size))) [
      | inl f ↦ rw (e, f, if◌then◌else◌) tt
      | inr f ↦ rw (e, f, if◌then◌else◌) (ends _ (size - body_end head size) _ _ (omega arith))
    ]
  ]

  take_body-Ends :
      (head : ByteString) (size parsed : ℕ) (recv : List ByteString) (z : ℤ)
      → size < bound
      → Ends (take_body again head size parsed recv z)
  unfolding take_body
  take_body-Ends head size parsed recv (negsuc n) h = tt
  take_body-Ends head size parsed recv (pos len) h = elim (Bool-cases (ltb size len)) [
    | inl e ↦ rw (e, if◌then◌else◌) tt
    | inr e ↦ rw (e, if◌then◌else◌) (after_body-Ends _ (size - len) _ _ (omega arith))
  ]

  at_head-Ends :
      (head : ByteString) (size parsed : ℕ) (recv : List ByteString) (o : Option ℕ)
      → size < bound
      → Ends (at_head again head (suc size) parsed recv o)
  unfolding at_head
  at_head-Ends head size parsed recv none h = tt
  at_head-Ends head size parsed recv (some i) h =
      elim (Bool-cases (i == 0 || (i == 1 && get_or head 0 0 == 13))) [
        | inl e ↦ rw (e, if◌then◌else◌) tt
        | inr e ↦ elim (Bool-cases (is_digit (get_or head 0 0))) [
          | inl d ↦ elim (Bool-cases (ltb 19 (i + 1))) [
            | inl f ↦ rw (e, d, f, if◌then◌else◌) tt
            | inr f ↦
                rw (e, d, f, if◌then◌else◌)
                  (take_body-Ends _ (suc size - (i + 1)) _ _ _ (omega arith))
          ]
          | inr d ↦ rw (e, d, if◌then◌else◌) tt
        ]
      ]

recv_loop-Ends :
    (fuel : ℕ) (head : ByteString) (size parsed : ℕ) (recv : List ByteString)
    → size < fuel
    → Ends (recv_loop fuel head size parsed recv)
unfolding recv_loop
recv_loop-Ends zero head size parsed recv h = absurd (omega arith)
recv_loop-Ends (suc fuel) head zero parsed recv h = tt
recv_loop-Ends (suc fuel) head (suc size) parsed recv h =
    at_head-Ends (recv_loop fuel) fuel (recv_loop-Ends fuel) head size parsed recv _
      (omega (arith, h))

-- The rounds of `parse_packet` are enough for any data.
parse_packet-Ends : (head : ByteString) (size : ℕ) → Ends (parse_packet head size)
unfolding parse_packet
parse_packet-Ends head size =
    recv_loop-Ends (suc size) _ (size - count_blank head size) _ [] (omega arith)
