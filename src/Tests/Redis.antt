-- ===== src/Tests/Redis.antt =====
-- Tests of ssdb/src/net/link_redis.cpp.
use model_lib.Prelude.{
  ◌+◌, ◌≡◌, refl, Option, none, some, true, false, List, [], ◌∷◌, arith, length,
}
use model_lib.Prelude.Int.{pos}
use model_lib.Prelude.Text.{ByteString, codes}
use model_lib.Util.Number.{
  strtol, scan_number, to_int, skip_spaces, read_digits, read_sign, starts_with_digit, decimal,
}
use model_lib.Net.Redis.Parse.{
  parse_req, parse_loop, find_lf, count_blank, take_arg, line_end, at_line, at_number, done,
}
use model_lib.Net.Redis.Parse.Encode.{encode_request, encode_arg, encode_args}
use model_lib.Net.Redis.Parse.RoundTrip.{parse_req-encode_request}
use model_lib.Net.Redis.Parse.Bounds.{parse_req-IsWithin, IsWithin}
use model_lib.Net.Redis.Convert.{range_args, score_args, no_limit}
use model_lib.Net.Redis.Convert.Ranges.{range_args-decimal, score_args-exclusive}
use model_lib.Net.Redis.Reply.{send_resp}
use model_lib.Net.Redis.Reply.Arrays.{send_resp-unknown_parsed, IsArray}
use model_lib.Util.Number.{str_int}
use model_lib.Prelude.Int.{pos, negsuc}
use model_lib.Net.Redis.Convert.{convert_req}
use model_lib.Net.Redis.Reply.MultiGet.{send_resp-mget, found_pairs, array_of}

abbrev get_k : List ByteString
get_k = codes "get" ∷ codes "k" ∷ []

parse_two : parse_req (codes "\r\n*2\r\n$3\r\nget\r\n$1\r\nk\r\nzzz") 27 ≡ done get_k 22
unfolding parse_req parse_loop at_line at_number find_lf count_blank take_arg line_end strtol
    scan_number to_int skip_spaces read_digits read_sign starts_with_digit
parse_two = refl

encode_two : encode_request get_k [] ≡ codes "*2\r\n$3\r\nget\r\n$1\r\nk\r\n"
unfolding encode_request encode_arg encode_args decimal
encode_two = refl

parse_req-encode_request_example :
    parse_req (encode_request get_k (codes "*1\r")) (length (encode_request get_k []) + 3)
    ≡ done get_k (length (encode_request get_k []))
parse_req-encode_request_example =
    parse_req-encode_request get_k (codes "*1\r") 3 (cc) (omega arith) (omega arith)

parse_req-IsWithin_example : IsWithin 5 (parse_req (codes "*1\r\n$") 5)
parse_req-IsWithin_example = parse_req-IsWithin (codes "*1\r\n$") 5

range_args-decimal_example :
    range_args (codes "z") (decimal 2) (decimal 5) ≡ codes "z" ∷ decimal 2 ∷ decimal 4 ∷ []
range_args-decimal_example = range_args-decimal (codes "z") 2 5 (omega arith) (omega arith)

score_args-exclusive_example :
    (score_args true (codes "z" ∷ (b'(' ∷ str_int (negsuc 4)) ∷ (b'(' ∷ str_int (pos 5)) ∷ [])
      ≡ codes "z" ∷ [] ∷ str_int (negsuc 3) ∷ str_int (pos 4) ∷ codes "0" ∷ no_limit ∷ [] ∷ [])
    × (score_args false (codes "z" ∷ (b'(' ∷ str_int (pos 5)) ∷ (b'(' ∷ str_int (negsuc 4)) ∷ [])
        ≡ codes "z" ∷ [] ∷ str_int (pos 4) ∷ str_int (negsuc 3) ∷ codes "0" ∷ no_limit ∷ [] ∷ [])
score_args-exclusive_example =
    score_args-exclusive (codes "z") (negsuc 4) (pos 5) (omega arith, omega arith)
      (omega arith, omega arith) (omega arith, omega arith) (omega arith, omega arith)

abbrev scored : List ByteString
scored = codes "a" ∷ codes "1" ∷ codes "b" ∷ codes "2" ∷ []

abbrev zrange_req : List ByteString
zrange_req = codes "zrange" ∷ codes "z" ∷ codes "0" ∷ codes "-1" ∷ []

send_resp-unknown_parsed_example : IsArray get_k (send_resp none [] (codes "ok" ∷ get_k))
send_resp-unknown_parsed_example =
    send_resp-unknown_parsed [] get_k (cc) (omega arith) (omega arith)

abbrev store_of : ByteString → Option ByteString
store_of [] = none
store_of (c ∷ s) = some s

send_resp-mget_example :
    (send_resp
        (convert_req (λ t. t) (codes "mget") (codes "k" ∷ [] ∷ [])).0
        (convert_req (λ t. t) (codes "mget") (codes "k" ∷ [] ∷ [])).1
        (codes "ok" ∷ found_pairs store_of (codes "k" ∷ [] ∷ []))
      ≡ array_of store_of (codes "k" ∷ [] ∷ []))
    × (send_resp
          (convert_req (λ t. t) (codes "hmget") (codes "h" ∷ codes "k" ∷ [] ∷ [])).0
          (convert_req (λ t. t) (codes "hmget") (codes "h" ∷ codes "k" ∷ [] ∷ [])).1
          (codes "ok" ∷ found_pairs store_of (codes "k" ∷ [] ∷ []))
        ≡ array_of store_of (codes "k" ∷ [] ∷ []))
send_resp-mget_example = send_resp-mget store_of (λ t. t) (codes "h") (codes "k" ∷ [] ∷ [])
