-- ===== src/Replication/Converge.antt =====
-- A replica that follows the log of a store until its end has the same keys and values.
use mathlib.Core.Option.{some-injective}
use model_lib.Prelude.{
  ℕ, suc, ◌+◌, ◌<◌, ◌≡◌, ◌≢◌, refl, ap, sym, ◌∙◌, subst, inl, inr, Option, some, true, false, List,
  [], ◌∷◌, arith, length,
}
use model_lib.Prelude.Text.{ByteString}
use model_lib.Store.Const.BinlogType
use model_lib.Store.Const.BinlogCommand
use model_lib.Store.Keys.{encode_kv_key, encode_seq_key}
use model_lib.Store.Binlog
use model_lib.Store.Binlog.{Binlog, make, repr, make_fields}
use model_lib.Store.LevelDb.{LevelDb, Op, failed}
use model_lib.Store.Cursor.{Cursors}
use model_lib.Store.Queue.{Queue}
use model_lib.Store.Find.{max_seq}
use model_lib.Store.Find.Sound.{IsSound}
use model_lib.Store.Find.Recovery.{run-IsSound}
use model_lib.Store.Impl.{raw_get}
use model_lib.Store.Impl.History.{
  Request, set_key, del_key, Dict, apply, apply_all, value, run, run-value,
}
use model_lib.Store.Impl.Log.{IsLogged, writes, entry, run-log}
use model_lib.BackendSync.{Client, Message, returned, log_message, sync}
use model_lib.BackendSync.State.{is_copy}
use model_lib.BackendSync.Next.{sync-SentNext}
use model_lib.Slave.{Slave}
use model_lib.Replication.{deliver, rounds}
use model_lib.Replication.CatchUp.{untouched, Follows, set-Follows, del-Follows}

-- A record is what its bytes are.
same-log :
    (log : Binlog) (s t c : ℕ) (k : ByteString) (o : Option ByteString)
    → o ≡ some (repr log)
    → o ≡ some (repr (make s t c k))
    → log ≡ make s t c k
same-log log s t c k o h e = let b = some-injective _ _ (sym h ∙ e) in λ i. record { buf = b i }

module _ {L : LevelDb} (C : Cursors L) (fuel : ℕ) (q : Queue L) where
  -- A call of `sync` that sends the record that the log has next.
  sent-logged :
      (c : Client L) (cmd : ℕ) (at : ByteString)
      → is_copy c.status ≡ false
      → c.is_mirror ≡ false
      → IsSound q
      → c.last_seq < q.last_seq
      → L.read q.db (encode_seq_key (c.last_seq + 1)) ≡ some (entry (c.last_seq + 1) cmd at)
      → sync C (suc fuel) (λ i. q) c
        ≡ returned 0
            (record c { last_seq = c.last_seq + 1 })
            (log_message (make (c.last_seq + 1) BinlogType.sync cmd at) (raw_get q at []))
  sent-logged c cmd at st mi s more logged =
      elim (sync-SentNext C fuel (λ i. q) c st mi s s (omega (arith, s.small))) [
        | inl (h, sent) ↦
            let e =
              same-log sent.log (c.last_seq + 1) BinlogType.sync cmd at _
                (elim sent.stored [ inl r ↦ r | inr r ↦ r ]) logged in
            let (l, m, t, cm, key) =
              make_fields (c.last_seq + 1) BinlogType.sync cmd at (omega (arith, s.small)) in
            sent.result
            ∙ ap
                (λ log.
                  returned 0 (record c { last_seq = c.last_seq + 1 })
                    (log_message log (raw_get q (Binlog.key log) [])))
                e
            ∙ rw key refl
        | inr (h, e) ↦ absurd (omega arith)
      ]

module _ {L M : LevelDb} (C : Cursors L) (fuel : ℕ) (q : Queue L) where
  rounds-sent :
      (n : ℕ) (c c' : Client L) (s : Slave M) (sent : List Message)
      → sync C (suc fuel) (λ i. q) c ≡ returned 0 c' sent
      → rounds C fuel q (suc n) c s ≡ rounds C fuel q n c' (deliver s sent)
  unfolding rounds
  rounds-sent n c c' s sent e = rw e refl

  -- The client is at the end of the log, and the replica has the keys and values of the store.
  abbrev pub IsCaughtUp : Client L × Slave M → Type 0
  IsCaughtUp (c, r) = (c.last_seq ≡ q.last_seq) × ((j : ByteString) → value r.ssdb j ≡ value q j)

  module _ (steady : (k : ByteString) → L.get q.db k ≢ failed)
      (reliable : (d : M.Db) (b : List Op) → (M.write d b).0 ≡ true) (s : IsSound q) where
    catch_up :
        (rs : List Request) (d : Dict) (c : Client L) (r : Slave M)
        → is_copy c.status ≡ false
        → c.is_mirror ≡ false
        → IsLogged q c.last_seq rs
        → c.last_seq + writes rs ≡ q.last_seq
        → ((j : ByteString) → value q j ≡ apply_all d rs j)
        → Follows (value q) (value r.ssdb) rs
        → IsCaughtUp (rounds C fuel q (writes rs) c r)
    unfolding rounds writes
    catch_up [] d c r st mi logged end all before = (omega arith, λ j. ground (arith, before j))
    catch_up (set_key [] v ∷ rs) d c r st mi logged end all before =
        catch_up rs (apply d (set_key [] v)) c r st mi logged end all before
    catch_up (set_key (a ∷ k) v ∷ rs) d c r st mi (here, logged) end all before =
        let e =
          sent-logged C fuel q c BinlogCommand.kset (encode_kv_key (a ∷ k)) st mi s (omega arith)
            here in
        subst IsCaughtUp (sym (rounds-sent (writes rs) c _ r _ e)) (
          catch_up rs (apply d (set_key (a ∷ k) v)) _ _ st mi logged (omega arith) all (
            set-Follows q steady reliable r (c.last_seq + 1) a k v rs d (omega (arith, s.small)) all
              before))
    catch_up (del_key k ∷ rs) d c r st mi (here, logged) end all before =
        let e =
          sent-logged C fuel q c BinlogCommand.kdel (encode_kv_key k) st mi s (omega arith) here in
        subst IsCaughtUp (sym (rounds-sent (writes rs) c _ r _ e)) (
          catch_up rs (apply d (del_key k)) _ _ st mi logged (omega arith) all (
            del-Follows q steady reliable r (c.last_seq + 1) k _ rs d (omega (arith, s.small)) all
              before))

module _ {L M : LevelDb} where
  -- A replica that is level with the store catches up with what SETs and DELs write next: after such
  -- requests, of which none failed, as many calls of `sync` as there were writes, whose messages the
  -- replica takes in order, leave it with the keys and values of the store, and the client at the end
  -- of the log. The log was sound before, the client makes no copy and is no mirror, LevelDB does not
  -- fail to read at the master or to write at the replica, and the numbers stay below UINT64_MAX.
  pub replicate :
      (C : Cursors L) (fuel : ℕ) (q q' : Queue L) (rs : List Request) (c : Client L) (r : Slave M)
      → run q rs ≡ some q'
      → q.last_seq + length rs < max_seq
      → IsSound q
      → ((k : ByteString) → L.get q'.db k ≢ failed)
      → ((d : M.Db) (b : List Op) → (M.write d b).0 ≡ true)
      → is_copy c.status ≡ false
      → c.is_mirror ≡ false
      → c.last_seq ≡ q.last_seq
      → ((j : ByteString) → value r.ssdb j ≡ value q j)
      → IsCaughtUp C fuel q' (rounds C fuel q' (writes rs) c r)
  replicate C fuel q q' rs c r ran fits sound steady reliable st mi at level =
      let (logged, ext) = run-log q q' rs ran (omega arith) in
      catch_up C fuel q' steady reliable (run-IsSound q q' rs ran fits sound) rs (value q) c r st mi
        (subst (λ n. IsLogged q' n rs) (sym at) logged) (omega (arith, at, ext.last_seq))
        (run-value q q' rs ran)
        (λ j. elim (untouched (value q) rs j) [
          | inl e ↦ inl (level j ∙ sym e ∙ sym (run-value q q' rs ran j))
          | inr t ↦ inr t
        ])
