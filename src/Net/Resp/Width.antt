-- ===== src/Net/Resp/Width.antt =====
-- Which integers `Response::add` prints into its buffer of 20 bytes.
use model_lib.Prelude.{ℕ, suc, ◌^◌, ◌≤◌, ◌≡◌, ◌↔◌, arith, none}
use model_lib.Prelude.Int.{pos, negsuc}
use model_lib.Util.Number.{str_int, str_uint64}
use model_lib.Util.Number.Digits.{length-decimal}
use model_lib.Net.Resp.{Response, print_buf, add_int64, add_uint64}

-- `Response::add(int64_t)` and `Response::add(uint64_t)` stay inside their buffers exactly from
-- -(10 ^ 18 - 1) and up to 10 ^ 19 - 1: the print and its NUL need 21 bytes beyond these.
pub add-InBuffer :
    (resp : Response) (n : ℕ)
    → ((add_int64 resp (pos n) ≡ none) ↔ (10 ^ 19 ≤ n))
      × ((add_int64 resp (negsuc n) ≡ none) ↔ (10 ^ 18 ≤ suc n))
      × ((add_uint64 resp n ≡ none) ↔ (10 ^ 19 ≤ n))
unfolding add_int64 add_uint64 print_buf str_int str_uint64
add-InBuffer resp n = ground (arith, length-decimal n 18, length-decimal (suc n) 17)
