-- ===== src/BackendSync/Sent.antt =====
-- What `BackendSync::Client::sync` of ssdb/src/backend_sync.cpp sends for a record.
use mathlib.Core.Option.{some-injective}
use model_lib.Prelude.{
  sym, ◌∙◌, ◌≡◌, ◌⊎◌, refl, inl, inr, none, some, arith, ◌≢◌, List, ◌∷◌, if◌then◌else◌, [],
}
use model_lib.Prelude.Text.{ByteString}
use model_lib.Store.Const.BinlogCommand
use model_lib.Store.Binlog
use model_lib.Store.Binlog.{Binlog, repr, seq}
use model_lib.Store.LevelDb.{LevelDb, Got, found, not_found, failed, Agrees}
use model_lib.Store.Queue.{Queue}
use model_lib.Store.Impl.{raw_get, get_result}
use model_lib.BackendSync.{Message, log_message}

module _ {L : LevelDb} where
  -- What the replica is to be told of a record: of a set, the record and the value that the store has, and
  -- nothing where it has none or LevelDB fails to read; of a deletion, the record; of another, nothing.
  pub record IsSentFor (q : Queue L) (log : Binlog) (sent : List Message) : Type 0 where
    pub kset :
        (v : ByteString)
        → Binlog.cmd log ≡ BinlogCommand.kset
        → L.read q.db (Binlog.key log) ≡ some v
        → L.get q.db (Binlog.key log) ≢ failed
        → sent ≡ (repr log ∷ v ∷ []) ∷ []
    pub gone :
        Binlog.cmd log ≡ BinlogCommand.kset
        → (L.read q.db (Binlog.key log) ≡ none) ⊎ (L.get q.db (Binlog.key log) ≡ failed)
        → sent ≡ []
    pub kdel : Binlog.cmd log ≡ BinlogCommand.kdel → sent ≡ (repr log ∷ []) ∷ []
    pub other :
        Binlog.cmd log ≢ BinlogCommand.kset → Binlog.cmd log ≢ BinlogCommand.kdel → sent ≡ []

  message-IsSentFor :
      (q : Queue L) (log : Binlog) (g : Got)
      → L.get q.db (Binlog.key log) ≡ g
      → Agrees g (L.read q.db (Binlog.key log))
      → IsSentFor q log (log_message log (get_result g []))
  unfolding log_message
  message-IsSentFor q log (found w) e a = record {
    kset = λ v c r ok. rw (c, if◌then◌else◌, some-injective _ _ (sym a ∙ r)) refl;
    gone = λ c h. elim h [ inl r ↦ cc (a, r) | inr f ↦ cc (e, f) ];
    kdel = λ c. rw (c, if◌then◌else◌) refl;
    other = λ h k. ground (arith, h, k);
  }
  message-IsSentFor q log not_found e a = record {
    kset = λ v c r ok. cc (a, r);
    gone = λ c h. rw (c, if◌then◌else◌) refl;
    kdel = λ c. rw (c, if◌then◌else◌) refl;
    other = λ h k. ground (arith, h, k);
  }
  message-IsSentFor q log failed e a = record {
    kset = λ v c r ok. absurd (ok e);
    gone = λ c h. rw (c, if◌then◌else◌) refl;
    kdel = λ c. rw (c, if◌then◌else◌) refl;
    other = λ h k. ground (arith, h, k);
  }

  pub log_message-IsSentFor :
      (q : Queue L) (log : Binlog)
      → IsSentFor q log (log_message log (raw_get q (Binlog.key log) []))
  log_message-IsSentFor q log =
      unfold raw_get in
      message-IsSentFor q log (L.get q.db (Binlog.key log)) refl
        (L.get_agrees q.db (Binlog.key log))
