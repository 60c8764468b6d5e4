-- ===== src/Store/Const/BinlogCommand.antt =====
-- `BinlogCommand` of ssdb/src/ssdb/const.h, as far as the source uses it.
use model_lib.Prelude.{ℕ}

abbrev pub none : ℕ
none = 0

abbrev pub kset : ℕ
kset = 1

abbrev pub kdel : ℕ
kdel = 2

abbrev pub hset : ℕ
hset = 3

abbrev pub hdel : ℕ
hdel = 4

abbrev pub begin : ℕ
begin = 7

abbrev pub end : ℕ
end = 8
