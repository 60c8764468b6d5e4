-- ===== src/Replication/Apply.antt =====
-- What one message does to the store of a slave whose database does not fail.
use model_lib.Prelude.{
  ℕ, ◌+◌, ◌^◌, ◌<◌, ◌≡◌, refl, ap, ◌∙◌, inl, inr, ◌==◌, ◌%◌, Bool-cases, some, true, List, [], ◌∷◌,
  arith, if◌then◌else◌,
}
use model_lib.Prelude.Int.{ℤ, pos, negsuc}
use model_lib.Prelude.Text.{ByteString}
use model_lib.Store.Const.BinlogType
use model_lib.Store.Const.BinlogCommand
use model_lib.Store.Keys.{encode_kv_key}
use model_lib.Store.Keys.RoundTrip.{decode_kv_key-encode}
use model_lib.Store.Binlog
use model_lib.Store.Binlog.{Binlog, make, repr, load, make_fields}
use model_lib.Store.LevelDb.{LevelDb, Op}
use model_lib.Store.Queue.{Queue, commit}
use model_lib.Store.Impl.{set, del}
use model_lib.Store.Impl.History.{Request, set_key, del_key, apply, value, step, step-value}
use model_lib.Slave
use model_lib.Slave.{
  Slave, proc_sync, after_write, save_status, status_sync, status_copy, proc_copy,
}

module _ {M : LevelDb} (reliable : (d : M.Db) (b : List Op) → (M.write d b).0 ≡ true) where
  -- A request on a reliable store does not fail.
  step-reliable : (q : Queue M) (r : Request) → (n : ℕ) × ((step q r).0 ≡ pos n)
  unfolding step set del commit
  step-reliable q (set_key [] v) = (0, refl)
  step-reliable q (set_key (c ∷ k) v) = (1, rw (reliable _ _) refl)
  step-reliable q (del_key k) = (1, rw (reliable _ _) refl)

  step-apply :
      (q : Queue M) (r : Request) (j : ByteString) → value (step q r).1 j ≡ apply (value q) r j
  step-apply q r j = let (n, e) = step-reliable q r in step-value q r n j e

  -- Saving the position leaves the store alone.
  after_write-ssdb :
      (s : Slave M) (log : Binlog) (r : ℤ × Queue M) → (after_write s log r).1.ssdb ≡ r.1
  unfolding save_status
  after_write-ssdb s log (pos n, q) = refl
  after_write-ssdb s log (negsuc n, q) = elim (Bool-cases (n == 0)) [
    | inl e ↦ rw (e, if◌then◌else◌) refl
    | inr e ↦ rw (e, if◌then◌else◌) refl
  ]

  abbrev counted : Slave M → Slave M
  counted s = record s { status = status_sync; sync_count = (s.sync_count + 1) % 2 ^ 64 }

  -- A synced record goes to `proc_sync`.
  proc-sync :
      (s : Slave M) (log : Binlog) (more : List ByteString)
      → load (repr log) ≡ some log
      → Binlog.type log ≡ BinlogType.sync
      → Slave.proc s (repr log ∷ more) ≡ (proc_sync (counted s) log (repr log ∷ more)).1
  unfolding Slave.proc
  proc-sync s log more l t = rw (l, Slave.proc, t, if◌then◌else◌) refl

  -- A synced record of a write carries that write out.
  pub proc-set :
      (s : Slave M) (n : ℕ) (k v : ByteString) (j : ByteString)
      → n < 2 ^ 64
      → value
          (Slave.proc s
            (repr (make n BinlogType.sync BinlogCommand.kset (encode_kv_key k)) ∷ v ∷ [])).ssdb
          j
        ≡ apply (value s.ssdb) (set_key k v) j
  unfolding proc_sync
  proc-set s n k v j h =
      let log = make n BinlogType.sync BinlogCommand.kset (encode_kv_key k) in
      let (l, q, t, c, at) = make_fields n BinlogType.sync BinlogCommand.kset (encode_kv_key k) h in
      rw (proc-sync s log (v ∷ []) l t, c, if◌then◌else◌, at, decode_kv_key-encode k)
        (ap (λ q. value q j) (after_write-ssdb (counted s) log (set s.ssdb k v))
          ∙ (unfold step in step-apply s.ssdb (set_key k v) j))

  pub proc-del :
      (s : Slave M) (n : ℕ) (k : ByteString) (j : ByteString)
      → n < 2 ^ 64
      → value
          (Slave.proc s
            (repr (make n BinlogType.sync BinlogCommand.kdel (encode_kv_key k)) ∷ [])).ssdb
          j
        ≡ apply (value s.ssdb) (del_key k) j
  unfolding proc_sync
  proc-del s n k j h =
      let log = make n BinlogType.sync BinlogCommand.kdel (encode_kv_key k) in
      let (l, q, t, c, at) = make_fields n BinlogType.sync BinlogCommand.kdel (encode_kv_key k) h in
      rw (proc-sync s log [] l t, c, if◌then◌else◌, at, decode_kv_key-encode k)
        (ap (λ q. value q j) (after_write-ssdb (counted s) log (del s.ssdb k))
          ∙ (unfold step in step-apply s.ssdb (del_key k) j))

-- A record of a copy goes to `proc_copy`.
proc-copy :
    {M : LevelDb} (s : Slave M) (log : Binlog) (more : List ByteString)
    → load (repr log) ≡ some log
    → Binlog.type log ≡ BinlogType.copy
    → Slave.proc s (repr log ∷ more)
      ≡ (proc_copy (record s { status = status_copy }) log (repr log ∷ more)).1
unfolding Slave.proc
proc-copy s log more l t = rw (l, Slave.proc, t, if◌then◌else◌) refl

module _ {M : LevelDb} (reliable : (d : M.Db) (b : List Op) → (M.write d b).0 ≡ true) where
  -- The state of a slave that takes an entry of a copy.
  abbrev copying : Slave M → Slave M
  copying s = record s { status = status_copy; copy_count = (s.copy_count + 1) % 2 ^ 64 }

  -- An entry of a copy is carried out as a write.
  pub proc-copied :
      (s : Slave M) (n : ℕ) (k v : ByteString) (j : ByteString)
      → n < 2 ^ 64
      → value
          (Slave.proc s
            (repr (make n BinlogType.copy BinlogCommand.kset (encode_kv_key k)) ∷ v ∷ [])).ssdb
          j
        ≡ apply (value s.ssdb) (set_key k v) j
  unfolding proc_sync proc_copy
  proc-copied s n k v j h =
      let log = make n BinlogType.copy BinlogCommand.kset (encode_kv_key k) in
      let (l, q, t, c, at) = make_fields n BinlogType.copy BinlogCommand.kset (encode_kv_key k) h in
      rw (proc-copy s log (v ∷ []) l t, c, if◌then◌else◌, at, decode_kv_key-encode k)
        (ap (λ q. value q j) (after_write-ssdb reliable (copying s) log (set s.ssdb k v))
          ∙ (unfold step in step-apply reliable s.ssdb (set_key k v) j))

-- The messages at the begin and at the end of a copy leave the store alone; the last ends the copy.
module _ {M : LevelDb} where
  pub proc-copy-begin :
      (s : Slave M) (more : List ByteString)
      → (Slave.proc s (repr (make 0 BinlogType.copy BinlogCommand.begin []) ∷ more)).ssdb ≡ s.ssdb
  unfolding proc_copy
  proc-copy-begin s more =
      let log = make 0 BinlogType.copy BinlogCommand.begin [] in
      let (l, q, t, c, at) = make_fields 0 BinlogType.copy BinlogCommand.begin [] (omega arith) in
      rw (proc-copy s log more l t, c, if◌then◌else◌) refl

  pub proc-copy-end :
      (s : Slave M) (n : ℕ) (more : List ByteString)
      → n < 2 ^ 64
      → ((Slave.proc s (repr (make n BinlogType.copy BinlogCommand.end []) ∷ more)).ssdb ≡ s.ssdb)
        × ((Slave.proc s (repr (make n BinlogType.copy BinlogCommand.end []) ∷ more)).status
            ≡ status_sync)
  unfolding proc_copy save_status
  proc-copy-end s n more h =
      let log = make n BinlogType.copy BinlogCommand.end [] in
      let (l, q, t, c, at) = make_fields n BinlogType.copy BinlogCommand.end [] h in
      rw (proc-copy s log more l t, c, if◌then◌else◌) (refl, refl)
