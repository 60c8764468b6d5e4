-- ===== src/Store/Impl/Kv.antt =====
-- What `set`, `del` and `get` do to the keys, the log and the sequence numbers.
use model_lib.Prelude.{
  ℕ, ◌+◌, ◌%◌, ◌^◌, ◌≡◌, refl, Option, none, some, Bool, true, false, ◌∷◌, arith, if◌then◌else◌,
}
use model_lib.Prelude.Int.{pos, negsuc}
use model_lib.Prelude.Text.{ByteString, str_eq}
use model_lib.Store.Const.BinlogType
use model_lib.Store.Const.BinlogCommand
use model_lib.Store.Keys.{encode_kv_key, encode_seq_key}
use model_lib.Store.Binlog.{make, repr}
use model_lib.Store.LevelDb.{LevelDb, replay}
use model_lib.Store.Queue
use model_lib.Store.Queue.{Queue, begin, commit, rollback, add_log}
use model_lib.Store.Impl.{committed, set, del}

-- A committed result comes from a commit that succeeded.
pub committed-true : (ok : Bool) (n : ℕ) → committed ok (pos 1) ≡ pos n → ok ≡ true
committed-true ok n h = ground arith

committed-false : (ok : Bool) (n : ℕ) → committed ok (pos 1) ≡ negsuc n → ok ≡ false
committed-false ok n h = ground arith

module _ {L : LevelDb} where
  -- A commit that succeeds leaves what the batch leaves, and the new sequence number.
  pub record IsCommitted (q q' : Queue L) : Type 0 where
    pub content : (j : ByteString) → L.read q'.db j ≡ replay q.batch j (L.read q.db j)
    pub last_seq : q'.last_seq ≡ q.tran_seq
    pub tran_seq : q'.tran_seq ≡ 0

  pub commit-IsCommitted :
      (q : Queue L) → (commit q).0 ≡ true → IsCommitted q (rollback (commit q).1)
  unfolding commit rollback
  commit-IsCommitted q h = record {
    content = λ j. rw h (L.write_replay q.db q.batch j h);
    last_seq = rw h;
    tran_seq = refl;
  }

  -- A commit that fails changes no sequence number.
  pub commit_failed :
      (q : Queue L)
      → (commit q).0 ≡ false
      → ((rollback (commit q).1).last_seq ≡ q.last_seq) × ((rollback (commit q).1).tran_seq ≡ 0)
  unfolding commit rollback
  commit_failed q h = (rw h, refl)

  abbrev pub next_seq : Queue L → ℕ
  next_seq q = (q.last_seq + 1) % 2 ^ 64

  -- What the key `j` holds after a committed transaction that left `value` at `at`, with a record
  -- of `cmd` in the log.
  abbrev pub after_write :
      Queue L → ℕ → ByteString → Option ByteString → ByteString → Option ByteString
  after_write q cmd at value j =
      if str_eq (encode_seq_key (next_seq q)) j
      then some (repr (make (next_seq q) BinlogType.sync cmd at))
      else if str_eq at j
      then value
      else L.read q.db j

  -- The transaction that went from `q` to `q'` wrote this, and nothing else.
  pub record Wrote (q q' : Queue L) (cmd : ℕ) (at : ByteString) (value : Option ByteString)
      : Type 0 where
    pub content : (j : ByteString) → L.read q'.db j ≡ after_write q cmd at value j
    pub last_seq : q'.last_seq ≡ next_seq q
    pub tran_seq : q'.tran_seq ≡ 0

  -- `set` of a key that is not empty, where it returns no error, wrote the value at the key and a record
  -- under the next sequence number, and left every other key as it was. Where it fails, the
  -- sequence number is the old one.
  pub set_lem :
      (q : Queue L) (c : ℕ) (key val : ByteString)
      → ((n : ℕ)
          → (set q (c ∷ key) val).0 ≡ pos n
          → Wrote q (set q (c ∷ key) val).1 BinlogCommand.kset (encode_kv_key (c ∷ key)) (some val))
        × ((n : ℕ)
            → (set q (c ∷ key) val).0 ≡ negsuc n
            → (set q (c ∷ key) val).1.last_seq ≡ q.last_seq)
  unfolding set begin add_log Queue.put
  set_lem q c key val =
      let batched =
        add_log (Queue.put (begin q) (encode_kv_key (c ∷ key)) val) BinlogType.sync
          BinlogCommand.kset (encode_kv_key (c ∷ key)) in
      (
        λ n h.
            let w = commit-IsCommitted batched (committed-true _ n h) in
            record { content = λ j. w.content j; last_seq = w.last_seq; tran_seq = w.tran_seq },
        λ n h. (commit_failed batched (committed-false _ n h)).0,
      )

  -- `del`, where it returns no error, removed the key and wrote a record under the next sequence number,
  -- and left every other key as it was. Where it fails, the sequence number is the old one.
  pub del_lem :
      (q : Queue L) (key : ByteString)
      → ((n : ℕ)
          → (del q key).0 ≡ pos n
          → Wrote q (del q key).1 BinlogCommand.kdel (encode_kv_key key) none)
        × ((n : ℕ) → (del q key).0 ≡ negsuc n → (del q key).1.last_seq ≡ q.last_seq)
  unfolding del begin add_log Queue.delete
  del_lem q key =
      let batched =
        add_log (Queue.delete (begin q) (encode_kv_key key)) BinlogType.sync BinlogCommand.kdel
          (encode_kv_key key) in
      (
        λ n h.
            let w = commit-IsCommitted batched (committed-true _ n h) in
            record { content = λ j. w.content j; last_seq = w.last_seq; tran_seq = w.tran_seq },
        λ n h. (commit_failed batched (committed-false _ n h)).0,
      )
