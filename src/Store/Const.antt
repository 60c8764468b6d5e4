-- ===== src/Store/Const.antt =====
-- ssdb/src/ssdb/const.h.
pub mod DataType
pub mod BinlogType
pub mod BinlogCommand
use model_lib.Prelude.{ℕ}

-- `SSDB_KEY_LEN_MAX`.
abbrev pub key_len_max : ℕ
key_len_max = 255
