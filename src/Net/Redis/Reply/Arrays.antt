-- ===== src/Net/Redis/Reply/Arrays.antt =====
-- Array replies are well-formed: each is the RESP array of its values, which a reader gets back.
use model_lib.Prelude.{
  ℕ, ◌+◌, ◌^◌, ◌<◌, ◌≡◌, ◌≢◌, refl, none, List, [], ◌∷◌, ◌++◌, append_assoc, append-nil, All,
  length, if◌then◌else◌,
}
use model_lib.Prelude.Int.{pos}
use model_lib.Prelude.Text.{ByteString, codes, str_eq}
use model_lib.Util.Number.{str_int}
use model_lib.Net.Redis.Table.{Strategy}
use model_lib.Net.Redis.Parse.{parse_req, done}
use model_lib.Net.Redis.Parse.Encode.{encode_arg, encode_args, encode_request}
use model_lib.Net.Redis.Parse.RoundTrip.{FitsInt, parse_req-encode_request, append-encode_request}
use model_lib.Net.Redis.Reply.{
  array_header, bulk_string, bulk_strings, every_other, withscores, send_resp,
}

bulk_strings-append :
    (vals : List ByteString) (rest : ByteString) → bulk_strings vals ++ rest ≡ encode_args vals rest
unfolding bulk_strings bulk_string encode_args encode_arg
bulk_strings-append [] rest = refl
bulk_strings-append (v ∷ vals) rest = simp (append_assoc, bulk_strings-append vals rest)

-- An array whose header counts its values is what a client would send as a request.
array-encode_request :
    (vals : List ByteString) (n : ℕ)
    → n ≡ length vals
    → array_header (pos n) ++ bulk_strings vals ≡ encode_request vals []
unfolding array_header str_int encode_request
array-encode_request vals n h = rw (h, append_assoc, ← bulk_strings-append vals [], append-nil)

-- `reply` is the RESP array of the values, byte for byte, and a reader of RESP takes exactly the reply
-- off a buffer, whatever follows, and gets the values.
abbrev pub IsArray : List ByteString → ByteString → Type 0
IsArray vals reply =
    (reply ≡ encode_request vals [])
    × ((rest : ByteString) (k : ℕ)
        → parse_req (reply ++ rest) (length reply + k) ≡ done vals (length reply))

bulk_strings-IsArray :
    (vals : List ByteString) (n : ℕ)
    → n ≡ length vals
    → vals ≢ []
    → length vals < 2 ^ 31
    → All FitsInt vals
    → IsArray vals (array_header (pos n) ++ bulk_strings vals)
bulk_strings-IsArray vals n h ne fits lens = (
  array-encode_request vals n h,
  λ rest k.
      rw (array-encode_request vals n h, append-encode_request vals [] rest)
        (parse_req-encode_request vals rest k ne fits lens),
)

-- The values that a multi bulk reply carries: all, or the members without their scores.
abbrev pub sent : Strategy → List ByteString → List ByteString → List ByteString
sent strategy recv_string vals = if withscores strategy recv_string then vals else every_other vals

-- The reply to a command that the table does not know, whose answer is "ok" and at least one value, is
-- byte for byte the RESP array of the values behind "ok"; and a reader takes exactly the reply off the
-- buffer, whatever follows, and gets those values.
pub send_resp-unknown_parsed :
    (recv_string vals : List ByteString)
    → vals ≢ []
    → length vals < 2 ^ 31
    → All FitsInt vals
    → IsArray vals (send_resp none recv_string (codes "ok" ∷ vals))
unfolding send_resp str_eq
send_resp-unknown_parsed recv_string vals ne fits lens =
    bulk_strings-IsArray vals (length vals) refl ne fits lens
