-- ===== src/Tests/Bootstrap.antt =====
-- Tests of a copy: a replica of the store that the tests of replication fill.
use model_lib.Prelude.{
  ◌≡◌, ◌≢◌, refl, sym, ap, ◌∙◌, inl, inr, none, some, Bool, true, false, not, List, [], ◌∷◌, arith,
  if◌then◌else◌, Bool-cases,
}
use model_lib.Prelude.Text.{ByteString, codes, str_eq, str_eq_sound, str_eq_refl}
use model_lib.Util.Bytes.{compare_bytes}
use model_lib.Util.Endian.{le_bytes, le_value, big_endian64, big_endian32}
use model_lib.Store.Keys.{encode_kv_key, encode_seq_key, decode_seq_key}
use model_lib.Store.Binlog
use model_lib.Store.Binlog.{Binlog}
use model_lib.Store.Cursor.Table.{table, table_cursors, find, Entries, pick, choose, carry_out}
use model_lib.Store.Find.{Find, one, absent, invalid, find_last}
use model_lib.Store.Impl.Log.{writes}
use model_lib.Store.Queue
use model_lib.Store.Queue.{Queue, begin, commit, rollback, add_log}
use model_lib.Store.Impl.{set, del}
use model_lib.Store.Impl.History.{Request, set_key, del_key, value, step, run}
use model_lib.Store.Iterator.Listed.{IsListed}
use model_lib.BackendSync.{new_client, reset}
use model_lib.Replication.{deliver, thread, rounds}
use model_lib.Replication.Bootstrap.{IsCopied, bootstrap}
use model_lib.Replication.Converge.{IsCaughtUp}
use model_lib.Replication.Follow.{joined, join-replicate}
use model_lib.Tests.Replication.{final, replica, final-IsSound, never_failed}

abbrev stored : Entries → List ByteString
stored [] = []
stored ((k, v) ∷ d) = k ∷ stored d

find-IsListed : (d : Entries) → IsListed (find d) (stored d)
unfolding find
find-IsListed [] k h = h refl
find-IsListed ((j, v) ∷ d) k h = elim (Bool-cases (str_eq j k)) [
  | inl e ↦ inl (str_eq_sound j k e)
  | inr e ↦ inr (find-IsListed d k (rw (e, if◌then◌else◌) at h))
]

abbrev has_key : Find → Bool
has_key (one log) = not (str_eq (Binlog.key log) [])
has_key absent = true
has_key invalid = true

final-has_key : has_key (find_last table_cursors final) ≡ true
unfolding find_last step set del begin commit rollback add_log Queue.put Queue.delete pick choose
    carry_out compare_bytes encode_seq_key le_bytes big_endian64 big_endian32 encode_kv_key str_eq
    decode_seq_key le_value find Binlog.load Binlog.make Binlog.key
final-has_key = refl

final_keyed : (log : Binlog) → find_last table_cursors final ≡ one log → Binlog.key log ≢ []
final_keyed log e h =
    let k : has_key (one log) ≡ true = ap has_key (sym e) ∙ final-has_key in
    let e' : has_key (one log) ≡ not (str_eq [] []) = ap (λ x. not (str_eq x [])) h in
    cc (k, e', str_eq_refl [])

final-no_empty : value final [] ≡ none
unfolding find step set del begin commit rollback add_log Queue.put Queue.delete carry_out str_eq
    encode_seq_key encode_kv_key le_bytes big_endian64
final-no_empty = refl

bootstrap_example : IsCopied table_cursors 0 final (value replica.ssdb) false (
    thread table_cursors 0 final 1
      (reset (new_client none)).0
      (deliver replica (reset (new_client {L = table} none)).1))
unfolding step set del begin commit rollback add_log Queue.put Queue.delete carry_out str_eq
    encode_seq_key encode_kv_key
bootstrap_example =
    bootstrap table_cursors 0 1 final (stored final.db) (new_client none) replica final-IsSound
      (omega arith) final_keyed (find-IsListed final.db) final-no_empty (omega arith) (omega arith)
      (λ d b. refl) refl

-- What the store writes after the copy.
abbrev news : List Request
news = set_key (codes "c") (codes "3") ∷ del_key (codes "b") ∷ []

abbrev later : Queue table
later = (step (step final (set_key (codes "c") (codes "3"))).1 (del_key (codes "b"))).1

news_taken : run final news ≡ some later
unfolding step set del begin commit rollback add_log Queue.put Queue.delete
news_taken = refl

join-replicate_example : IsCaughtUp table_cursors 0 later (
    rounds table_cursors 0 later
      (writes news)
      (joined table_cursors 0 1 final (new_client {L = table} none) replica).0
      (joined table_cursors 0 1 final (new_client {L = table} none) replica).1)
unfolding step set rollback commit add_log Queue.put begin del Queue.delete carry_out str_eq
    encode_seq_key encode_kv_key find
join-replicate_example =
    join-replicate table_cursors 0 1 final later (stored final.db) news (new_client none) replica
      final-IsSound (omega arith) (omega arith) final_keyed (find-IsListed final.db) final-no_empty
      (omega arith) (omega arith) news_taken (never_failed later.db) (λ d b. refl) refl refl
      (λ j. refl)
