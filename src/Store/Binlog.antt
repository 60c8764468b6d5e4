-- ===== src/Store/Binlog.antt =====
-- `Binlog` of ssdb/src/ssdb/binlog.h and ssdb/src/ssdb/binlog.cpp: one record of the log.
use model_lib.Prelude.{
  ℕ, ◌^◌, ◌<◌, ◌≡◌, refl, Option, none, some, ◌∷◌, ◌++◌, arith, ltb, if◌then◌else◌, get_or, take,
  drop, length,
}
use model_lib.Prelude.Text.{ByteString}
use model_lib.Util.Endian.{le_bytes, le_value}
use model_lib.Util.Endian.Reverse.{le_value-le_bytes}

abbrev pub header_len : ℕ
header_len = 10

pub record Binlog : Type 0 where
  pub buf : ByteString

-- The constructor: 8 bytes of sequence number, the type, the command, the key.
unfoldable pub make : ℕ → ℕ → ℕ → ByteString → Binlog
make seq type cmd key = record { buf = le_bytes 8 seq ++ type ∷ cmd ∷ key }

unfoldable pub seq : Binlog → ℕ
seq log = le_value (take 8 log.buf)

unfoldable pub type : Binlog → ℕ
type log = get_or log.buf 8 0

unfoldable pub cmd : Binlog → ℕ
cmd log = get_or log.buf 9 0

unfoldable pub key : Binlog → ByteString
key log = drop header_len log.buf

-- The three overloads of `load`, which differ in the class of the bytes; `none` is -1.
unfoldable pub load : ByteString → Option Binlog
load s = if ltb (length s) header_len then none else some (record { buf = s })

-- `repr()`.
abbrev pub repr : Binlog → ByteString
repr log = log.buf

-- Every field of a record is read back from it, and its bytes are loaded to the record.
pub make_fields :
    (s t c : ℕ) (k : ByteString)
    → s < 2 ^ 64
    → (load (repr (make s t c k)) ≡ some (make s t c k))
      × (seq (make s t c k) ≡ s)
      × (type (make s t c k) ≡ t)
      × (cmd (make s t c k) ≡ c)
      × (key (make s t c k) ≡ k)
unfolding load make seq type cmd key le_bytes
make_fields s t c k h = (ground arith, rw_seq, refl, refl, refl)
  where
    rw_seq : le_value (le_bytes 8 s) ≡ s
    rw_seq = le_value-le_bytes s h
