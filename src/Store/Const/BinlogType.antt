-- ===== src/Store/Const/BinlogType.antt =====
-- `BinlogType` of ssdb/src/ssdb/const.h.
use model_lib.Prelude.{ℕ}

abbrev pub noop : ℕ
noop = 0

abbrev pub sync : ℕ
sync = 1

abbrev pub mirror : ℕ
mirror = 2

abbrev pub copy : ℕ
copy = 3

abbrev pub ctrl : ℕ
ctrl = 4
