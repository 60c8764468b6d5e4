-- ===== src/Net/Redis/Reply/MultiGet.antt =====
-- The replies to MGET and HMGET: one entry for each key that was asked for, in order.
use model_lib.Prelude.{
  suc, ◌+◌, ◌-◌, ◌%◌, ◌≡◌, refl, ap, ◌∙◌, Option, none, some, true, List, [], ◌∷◌, ◌++◌, arith,
  length, length-append, drop-length_append, append_assoc, Bool-cases, Option-cases, inl, inr, leb,
}
use model_lib.Prelude.Int.{pos}
use model_lib.Prelude.Text.{ByteString, codes, str_eq, str_eq_sound, str_eq_refl}
use model_lib.Util.Number.{decimal, str_int}
use model_lib.Net.Redis.Parse.Encode.{encode_arg}
use model_lib.Net.Redis.Table.{find_cmd, cmd_table}
use model_lib.Net.Redis.Convert.{convert_req}
use model_lib.Net.Redis.Reply.{array_header, bulk_string, mget_loop, mget_reply, send_resp}

-- A key that the store has is answered with its value behind it.
abbrev push_found : ByteString → Option ByteString → List ByteString → List ByteString
push_found k none pairs = pairs
push_found k (some v) pairs = k ∷ v ∷ pairs

mget_hit :
    (k v : ByteString) (keys resp : List ByteString)
    → mget_loop (k ∷ keys) (k ∷ v ∷ resp) ≡ bulk_string v ++ mget_loop keys resp
unfolding mget_loop
mget_hit k v keys resp = rw (str_eq_refl k)

module _ (value : ByteString → Option ByteString) where
  -- What the store answers behind "ok": the keys that it has, each with its value.
  pub found_pairs : List ByteString → List ByteString
  found_pairs [] = []
  found_pairs (k ∷ keys) = push_found k (value k) (found_pairs keys)

  -- What a Redis client expects for one key.
  abbrev pub answer : Option ByteString → ByteString
  answer none = codes "$-1\r\n"
  answer (some v) = encode_arg v []

  pub answers : List ByteString → ByteString
  answers [] = []
  answers (k ∷ keys) = answer (value k) ++ answers keys

  -- The keys in `resp` have the values that stand behind them.
  abbrev Heads : List ByteString → Type 0
  Heads [] = Unit
  Heads (k ∷ []) = ⊥
  Heads (k ∷ v ∷ resp) = value k ≡ some v

  found_pairs-Heads : (keys : List ByteString) → Heads (found_pairs keys)
  unfolding found_pairs
  found_pairs-Heads [] = tt
  found_pairs-Heads (k ∷ keys) = elim (Option-cases (value k)) [
    | inl e ↦ rw (e, push_found) (found_pairs-Heads keys)
    | inr (v, e) ↦ rw (e, push_found) e
  ]

  mget_miss :
      (k : ByteString) (keys resp : List ByteString)
      → value k ≡ none
      → Heads resp
      → mget_loop (k ∷ keys) resp ≡ codes "$-1\r\n" ++ mget_loop keys resp
  unfolding mget_loop
  mget_miss k keys [] e h = refl
  mget_miss k keys (j ∷ []) e h = elim h [ ]
  mget_miss k keys (j ∷ v ∷ resp) e h = elim (Bool-cases (str_eq k j)) [
    | inl same ↦ absurd (cc (ap value (str_eq_sound k j same)))
    | inr other ↦ rw other
  ]

  mget_loop-found : (keys : List ByteString) → mget_loop keys (found_pairs keys) ≡ answers keys
  unfolding found_pairs answers bulk_string encode_arg
  mget_loop-found [] = unfold mget_loop in refl
  mget_loop-found (k ∷ keys) = elim (Option-cases (value k)) [
    | inl e ↦
        rw (e, push_found)
          (mget_miss k keys (found_pairs keys) e (found_pairs-Heads keys)
            ∙ rw (mget_loop-found keys))
    | inr (v, e) ↦
        rw (e, push_found) (mget_hit k v keys (found_pairs keys) ∙ rw (mget_loop-found keys))
  ]

  found_pairs-even : (keys : List ByteString) → length (found_pairs keys) % 2 ≡ 0
  unfolding found_pairs
  found_pairs-even [] = refl
  found_pairs-even (k ∷ keys) = ground (arith, found_pairs-even keys)

  -- The keys stand behind the strings `front` of `recv_string`.
  mget_reply-found :
      (front keys : List ByteString)
      → mget_reply (length front) (front ++ keys) (found_pairs keys)
        ≡ array_header (pos (length keys)) ++ answers keys
  unfolding mget_reply
  mget_reply-found front keys =
      let even = found_pairs-even keys in
      let parity : suc (length (found_pairs keys)) % 2 ≡ 1 = omega arith in
      let e : length front + length keys + 0 - (0 + length front) ≡ length keys = omega arith in
      let e1 : leb (0 + length front) (length front + length keys + 0) ≡ true = ground arith in
      rw (parity, drop-length_append, length-append, e, e1, mget_loop-found keys)

  -- The RESP array with an entry for each key.
  abbrev pub array_of : List ByteString → ByteString
  array_of keys = b'*' ∷ (decimal (length keys) ++ 13 ∷ 10 ∷ answers keys)

  -- If MGET, or HMGET with a name, is answered with "ok", the keys that are there and their values, in
  -- the order of the request, the reply to the client is byte for byte the RESP array with an entry for
  -- each key that was asked for: its value, or nil where there is none.
  pub send_resp-mget :
      (score : ByteString → ByteString) (name : ByteString) (keys : List ByteString)
      → (send_resp
            (convert_req score (codes "mget") keys).0
            (convert_req score (codes "mget") keys).1
            (codes "ok" ∷ found_pairs keys)
          ≡ array_of keys)
        × (send_resp
              (convert_req score (codes "hmget") (name ∷ keys)).0
              (convert_req score (codes "hmget") (name ∷ keys)).1
              (codes "ok" ∷ found_pairs keys)
            ≡ array_of keys)
  unfolding send_resp convert_req str_eq find_cmd cmd_table array_header str_int
  send_resp-mget score name keys = (
    mget_reply-found (codes "multi_get" ∷ []) keys ∙ simp append_assoc,
    mget_reply-found (codes "multi_hget" ∷ name ∷ []) keys ∙ simp append_assoc,
  )
