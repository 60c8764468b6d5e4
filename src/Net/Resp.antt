-- ===== src/Net/Resp.antt =====
-- `Response` of ssdb/src/net/resp.h and ssdb/src/net/resp.cpp: the strings of a reply, in order. A
-- method takes the strings so far and returns them with its own behind them. A `char *` or a
-- pointer to a string that may be NULL is an Option.
pub mod Width
use model_lib.Prelude.{
  ℕ, suc, Option, none, some, Bool, true, false, List, [], ◌∷◌, ◌++◌, ltb, if◌then◌else◌, ◌==◌,
  length,
}
use model_lib.Prelude.Int.{ℤ, pos, negsuc}
use model_lib.Prelude.Text.{ByteString, codes}
use model_lib.Util.Number.{str_int, str_uint64}

abbrev pub Response : Type 0
Response = List ByteString

unfoldable pub push_back : Response → ByteString → Response
push_back resp s = resp ++ s ∷ []

unfoldable pub push_opt : Response → Option ByteString → Response
unfolding push_back
push_opt resp none = resp
push_opt resp (some s) = push_back resp s

-- `status == -1`.
abbrev pub is_error : ℤ → Bool
is_error (pos n) = false
is_error (negsuc n) = n == 0

abbrev pub is_zero : ℤ → Bool
is_zero (pos n) = n == 0
is_zero (negsuc n) = false

-- `sprintf` into `char buf[20]`, with a NUL behind the digits; `none` is a write past the buffer.
unfoldable pub print_buf : Response → ByteString → Option Response
unfolding push_back
print_buf resp s = if ltb (length s) 20 then some (push_back resp s) else none

unfoldable pub add_int64 : Response → ℤ → Option Response
add_int64 resp s = print_buf resp (str_int s)

unfoldable pub add_uint64 : Response → ℕ → Option Response
add_uint64 resp s = print_buf resp (str_uint64 s)

unfoldable pub reply_status : Response → ℤ → Option ByteString → Response
unfolding push_back push_opt
reply_status resp status errmsg =
    if is_error status
    then push_opt (push_back resp (codes "error")) errmsg
    else push_back resp (codes "ok")

unfoldable pub reply_bool : Response → ℤ → Option ByteString → Response
unfolding push_back push_opt
reply_bool resp status errmsg =
    if is_error status
    then push_opt (push_back resp (codes "error")) errmsg
    else if is_zero status
    then push_back (push_back resp (codes "ok")) (codes "0")
    else push_back (push_back resp (codes "ok")) (codes "1")

unfoldable pub reply_int : Response → ℤ → ℤ → Option Response
unfolding push_back
reply_int resp status val =
    if is_error status
    then some (push_back resp (codes "error"))
    else add_int64 (push_back resp (codes "ok")) val

unfoldable pub reply_get : Response → ℤ → Option ByteString → Option ByteString → Response
unfolding push_back push_opt
reply_get resp status val errmsg =
    if is_error status
    then push_opt (push_back resp (codes "error")) errmsg
    else if is_zero status
    then push_opt (push_back resp (codes "not_found")) errmsg
    else push_opt (push_back resp (codes "ok")) val

unfoldable pub reply_list : Response → ℤ → List ByteString → Response
unfolding push_back
reply_list resp status list =
    if is_error status then push_back resp (codes "error") else push_back resp (codes "ok") ++ list
