-- ===== src/Store/Const/DataType.antt =====
-- `DataType` of ssdb/src/ssdb/const.h: the first byte of every key in the database.
use model_lib.Prelude.{ℕ}

abbrev pub synclog : ℕ
synclog = 1

abbrev pub kv : ℕ
kv = b'k'

abbrev pub hash : ℕ
hash = b'h'

abbrev pub hsize : ℕ
hsize = b'H'

abbrev pub zset : ℕ
zset = b's'

abbrev pub min_prefix : ℕ
min_prefix = hash

abbrev pub max_prefix : ℕ
max_prefix = zset
