-- ===== src/Store/Keys.antt =====
-- The keys of the database: `encode_*_key` and `decode_*_key` of ssdb/src/ssdb/ssdb_impl.cpp,
-- ssdb/src/ssdb/binlog.cpp, ssdb/src/ssdb/iterator.cpp and ssdb/src/slave.cpp.
pub mod RoundTrip
use model_lib.Prelude.{
  ℕ, suc, ◌%◌, Option, none, some, ◌&&◌, [], ◌∷◌, ◌++◌, ◌==◌, if◌then◌else◌, get_or, drop, length,
}
use model_lib.Prelude.Text.{ByteString}
use model_lib.Util.Endian.{big_endian64, le_bytes, le_value}
use model_lib.Util.Decoder.{skip, read_data, read_8_data}
use model_lib.Store.Const.DataType

-- An Option chain of the decoders.
infixl 5 ◌>>=◌
abbrev ◌>>=◌ {ℓ κ} : {A : Type ℓ} {B : Type κ} → Option A → (A → Option B) → Option B
none >>= f = none
some a >>= f = f a

unfoldable pub encode_kv_key : ByteString → ByteString
encode_kv_key key = DataType.kv ∷ key

unfoldable pub decode_kv_key : ByteString → Option ByteString
unfolding skip read_data
decode_kv_key slice = do s ← skip 1 slice; some (read_data s).0

unfoldable pub encode_hsize_key : ByteString → ByteString
encode_hsize_key name = DataType.hsize ∷ name

unfoldable pub decode_hsize_key : ByteString → Option ByteString
unfolding skip read_data
decode_hsize_key slice = do s ← skip 1 slice; some (read_data s).0

-- The length of the name is cut to a byte.
unfoldable pub encode_hash_key : ByteString → ByteString → ByteString
encode_hash_key name key = DataType.hash ∷ length name % 256 ∷ (name ++ b'=' ∷ key)

unfoldable pub decode_hash_key : ByteString → Option (ByteString × ByteString)
unfolding read_data
decode_hash_key slice = do
  s ← skip 1 slice
  r ← read_8_data s
  t ← skip 1 r.1
  some (r.0, (read_data t).0)

unfoldable pub encode_seq_key : ℕ → ByteString
encode_seq_key seq = DataType.synclog ∷ le_bytes 8 (big_endian64 seq)

-- 0 for a key that is not one of the log.
unfoldable pub decode_seq_key : ByteString → ℕ
decode_seq_key key =
    if length key == 9 && get_or key 0 0 == DataType.synclog
    then big_endian64 (le_value (drop 1 key))
    else 0
