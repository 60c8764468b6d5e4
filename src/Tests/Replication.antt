-- ===== src/Tests/Replication.antt =====
-- Tests of the log and of replication: a store in memory, its log, a client and a replica.
use model_lib.Prelude.{
  ℕ, ◌<◌, ◌≤◌, ◌≡◌, ◌≢◌, ◌⊎◌, refl, ap, get_or, inr, Option, none, some, false, List, [], ◌∷◌,
  arith,
}
use model_lib.Prelude.Text.{ByteString, codes}
use model_lib.Prelude.Int.{pos}
use model_lib.Store.Keys.{encode_hash_key}
use model_lib.Store.LevelDb.{memory_get, failed}
use model_lib.Store.Cursor.Table.{table, table_cursors, find}
use model_lib.Store.Queue
use model_lib.Store.Queue.{Queue, begin, commit, rollback, add_log}
use model_lib.Store.Impl.{set, del, hset}
use model_lib.Store.Impl.History.{Request, set_key, del_key, step, run}
use model_lib.Store.Impl.Log.{writes}
use model_lib.Store.Find.{absent, find_next, open_queue}
use model_lib.Store.Find.Sound.{IsSound}
use model_lib.Store.Find.Recovery.{run-IsSound, run-open_queue}
use model_lib.Store.Find.Next.{IsFoundAt, find_next-found}
use model_lib.BackendSync.{Client, returned, sync}
use model_lib.BackendSync.State.{Status}
use model_lib.BackendSync.Next.{Returns, sync-Returns, SentNext, sync-SentNext}
use model_lib.Slave.{Slave, status_sync, new_slave, make_id, load_status, save_status}
use model_lib.Slave.Status.{load_status-save_status}
use model_lib.Store.Impl.Frame.{hset-spares}
use model_lib.Store.Iterator.{iterator}
use model_lib.Store.Iterator.Kv.{KIterator, new_kiterator}
use model_lib.Replication.{rounds}
use model_lib.Replication.Converge.{IsCaughtUp, replicate}

abbrev pub empty : Queue table
empty = record { db = []; capacity = 20000000; last_seq = 0; tran_seq = 0; batch = [] }

empty-IsSound : IsSound empty
unfolding find
empty-IsSound = record { small = omega arith; entry = λ j v h l. cc h; full = λ n p h. omega arith }

abbrev script : List Request
script =
    set_key (codes "a") (codes "1") ∷ del_key (codes "a") ∷ set_key (codes "b") (codes "2") ∷ []

abbrev pub final : Queue table
final =
    let q1 = (step empty (set_key (codes "a") (codes "1"))).1 in
    let q2 = (step q1 (del_key (codes "a"))).1 in (step q2 (set_key (codes "b") (codes "2"))).1

script_runs : run empty script ≡ some final
unfolding step set del begin commit rollback add_log Queue.put Queue.delete
script_runs = refl

run-IsSound_example : IsSound final
run-IsSound_example = run-IsSound empty final script script_runs (omega arith) empty-IsSound

pub final-IsSound : IsSound final
final-IsSound = run-IsSound empty final script script_runs (omega arith) empty-IsSound

run-open_queue_example : (open_queue table_cursors final.db 20000000).last_seq ≡ final.last_seq
run-open_queue_example =
    run-open_queue table_cursors empty final script 20000000 script_runs (omega arith) empty-IsSound

find_next-found_example :
    ((2 ≤ final.last_seq) × IsFoundAt final 2 (find_next table_cursors final final 2))
    ⊎ ((final.last_seq < 2) × (find_next table_cursors final final 2 ≡ absent))
find_next-found_example =
    find_next-found final final-IsSound 2 (omega arith) (omega arith) table_cursors

-- A client that has made its copy of the empty store, and a replica that is as empty.
abbrev ready : Client table
ready = record {
  status = Status.sync;
  last_seq = 0;
  last_noop_seq = 0;
  last_key = [];
  is_mirror = false;
  iter = none;
}

abbrev pub replica : Slave table
replica = record {
  status = status_sync;
  copy_count = 0;
  sync_count = 0;
  last_seq = 0;
  last_key = [];
  id = make_id (codes "h") (pos 1);
  ssdb = empty;
  meta = empty;
}

always : ℕ → Queue table
always n = final

always-IsSound : (n : ℕ) → IsSound (always n) × ((always n).last_seq ≤ 3)
unfolding always step set rollback commit add_log Queue.put begin del Queue.delete
always-IsSound n = (final-IsSound, omega arith)

sync-Returns_example : Returns (sync table_cursors 4 always ready)
sync-Returns_example =
    sync-Returns table_cursors 4 always ready 3 always-IsSound (omega arith) (omega arith)
      (omega arith)

sync-SentNext_example :
    (((0 < (always 0).last_seq) ⊎ (0 < (always 1).last_seq))
      × SentNext always ready (sync table_cursors 4 always ready))
    ⊎ (((always 1).last_seq ≤ 0) × (sync table_cursors 4 always ready ≡ returned 0 ready []))
sync-SentNext_example =
    sync-SentNext table_cursors 3 always ready refl refl (always-IsSound 0).0 (always-IsSound 1).0
      (omega arith)

pub never_failed : (d : table.Db) (k : ByteString) → table.get d k ≢ failed
never_failed d k h = never (find d k) h
  where
    never : (o : Option ByteString) → memory_get o ≢ failed
    never none e = cc e
    never (some v) e = cc e

replicate_example :
    IsCaughtUp table_cursors 0 final (rounds table_cursors 0 final (writes script) ready replica)
replicate_example =
    replicate table_cursors 0 empty final script ready replica script_runs (omega arith)
      empty-IsSound (never_failed final.db) (λ d b. refl) refl refl refl (λ j. refl)

abbrev on_keys : KIterator table
on_keys = new_kiterator (iterator table_cursors final (codes "a") [] 5)

abbrev advanced : Slave table
advanced = record replica { last_seq = 3; last_key = codes "kb" }

load_status-save_status_example :
    ((load_status (new_slave empty (save_status advanced).meta (codes "h") (pos 1) 0)).last_seq ≡ 3)
    × ((load_status (new_slave empty (save_status advanced).meta (codes "h") (pos 1) 0)).last_key
        ≡ codes "kb")
load_status-save_status_example =
    load_status-save_status advanced empty (codes "h") (pos 1) 0 refl (omega arith) never_failed
      (λ d b. refl)

hset-spares_example :
    ((n : ℕ) × ((hset final (codes "h") (codes "x") (codes "1") 1).0 ≡ pos n))
    × (table.read
          (hset final (codes "h") (codes "x") (codes "1") 1).1.db
          (encode_hash_key (codes "h") (codes "y"))
        ≡ table.read final.db (encode_hash_key (codes "h") (codes "y")))
hset-spares_example =
    hset-spares final (codes "h") (codes "x") (codes "1") (codes "h") (codes "y") 1 refl refl
      (omega arith) (omega arith) (omega arith) (never_failed _ _) (λ d b. refl)
      (inr (λ e. let c = ap (λ l. get_or l 0 0) e in omega (arith, c)))
