-- ===== src/Tests/Store.antt =====
-- Tests of ssdb/src/ssdb.
use Prim.Native.Nat.{compare}
use model_lib.Prelude.{◌≡◌, refl, none, some, List, [], ◌∷◌, arith, replicate}
use model_lib.Prelude.Text.{ByteString, codes}
use model_lib.Util.Bytes.{compare_bytes}
use model_lib.Store.Keys.{encode_seq_key, encode_hash_key, decode_hash_key}
use model_lib.Store.Keys.RoundTrip.{decode_hash_key-encode, compare-encode_seq_key}
use model_lib.Store.LevelDb.{in_memory}
use model_lib.Store.Queue
use model_lib.Store.Queue.{Queue, begin, commit, rollback, add_log}
use model_lib.Prelude.{◌≢◌}
use model_lib.Prelude.Int.{pos}
use model_lib.Prelude.Text.{str_eq}
use model_lib.Store.Const.BinlogType
use model_lib.Store.LevelDb.{not_found, failed}
use model_lib.Store.Impl.Hash.{hset-found}
use model_lib.Store.Impl.{set, del, hset, hset_one, hget, incr_hsize, hsize, hsize_value}
use model_lib.Store.Impl.History.{Request, set_key, del_key, step, run, value, apply_all, run-value}
use model_lib.Store.Impl.Log.{IsLogged, Extends, writes, run-log}

abbrev fresh : Queue in_memory
fresh = record { db = λ k. none; capacity = 20000000; last_seq = 0; tran_seq = 0; batch = [] }

abbrev script : List Request
script =
    set_key (codes "a") (codes "1")
    ∷ set_key [] (codes "x")
    ∷ del_key (codes "a")
    ∷ set_key (codes "b") (codes "2")
    ∷ []

abbrev final : Queue in_memory
final =
    let q1 = (step fresh (set_key (codes "a") (codes "1"))).1 in
    let q2 = (step q1 (set_key [] (codes "x"))).1 in
    let q3 = (step q2 (del_key (codes "a"))).1 in (step q3 (set_key (codes "b") (codes "2"))).1

script_runs : run fresh script ≡ some final
unfolding step set del begin commit rollback add_log Queue.put Queue.delete
script_runs = refl

run-value_example : value final (codes "b") ≡ apply_all (value fresh) script (codes "b")
run-value_example = run-value fresh final script script_runs (codes "b")

run-log_example : IsLogged final 0 script × Extends fresh final (writes script)
run-log_example = run-log fresh final script script_runs (omega arith)

decode_hash_key-encode_example :
    decode_hash_key (encode_hash_key (codes "h") (codes "k")) ≡ some (codes "h", codes "k")
decode_hash_key-encode_example = decode_hash_key-encode (codes "h") (codes "k") (omega arith)

compare-encode_seq_key_example :
    compare_bytes (encode_seq_key 255) (encode_seq_key 256) ≡ compare 255 256
compare-encode_seq_key_example = compare-encode_seq_key 255 256 (omega arith) (omega arith)

abbrev padding : ByteString
padding = replicate 255 b'x'

fresh-get : not_found ≢ failed
fresh-get e = cc e

hset_runs : (hset fresh (codes "h") (codes "k") (codes "v") BinlogType.sync).0 ≡ pos 1
unfolding hset hset_one hget incr_hsize hsize hsize_value begin commit rollback add_log Queue.put
    str_eq
hset_runs = refl

hset-found_example :
    in_memory.read
      (hset fresh (codes "h") (codes "k") (codes "v") BinlogType.sync).1.db
      (encode_hash_key (codes "h") (codes "k"))
    ≡ some (codes "v")
hset-found_example =
    hset-found fresh (codes "h") (codes "k") (codes "v") BinlogType.sync 1 fresh-get hset_runs
