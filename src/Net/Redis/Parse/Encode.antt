-- ===== src/Net/Redis/Parse/Encode.antt =====
-- The request that a Redis client sends: an array of bulk strings.
use model_lib.Prelude.{List, [], ◌∷◌, ◌++◌, length}
use model_lib.Prelude.Text.{ByteString}
use model_lib.Util.Number.{decimal}

-- `$<length>\r\n<bytes>\r\n`, in front of `rest`.
unfoldable pub encode_arg : ByteString → ByteString → ByteString
encode_arg a rest = b'$' ∷ (decimal (length a) ++ 13 ∷ 10 ∷ (a ++ 13 ∷ 10 ∷ rest))

unfoldable pub encode_args : List ByteString → ByteString → ByteString
encode_args [] rest = rest
encode_args (a ∷ as') rest = encode_arg a (encode_args as' rest)

-- `*<count>\r\n` and the arguments, in front of `rest`.
unfoldable pub encode_request : List ByteString → ByteString → ByteString
encode_request args rest = b'*' ∷ (decimal (length args) ++ 13 ∷ 10 ∷ encode_args args rest)
