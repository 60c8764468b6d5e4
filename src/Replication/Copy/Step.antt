-- ===== src/Replication/Copy/Step.antt =====
-- The rounds of one call of `BackendSync::Client::copy` of ssdb/src/backend_sync.cpp, and what a replica
-- makes of their messages.
use model_lib.Prelude.{
  ℕ, suc, ◌+◌, ◌^◌, ◌≤◌, ◌<◌, ◌≡◌, ◌≢◌, ◌⊎◌, refl, sym, ap, ◌∙◌, subst, inl, inr, none, some, true,
  false, List, [], ◌∷◌, ◌++◌, ◌==◌, arith, drop, get_or, if◌then◌else◌,
}
use model_lib.Prelude.Text.{ByteString, codes, str_eq}
use model_lib.Util.Bytes.Order.{compare_bytes-lex, lex}
use model_lib.Store.Const.DataType
use model_lib.Store.Const.BinlogType
use model_lib.Store.Const.BinlogCommand
use model_lib.Store.Keys.{encode_kv_key}
use model_lib.Store.Binlog.{make, repr}
use model_lib.Store.LevelDb.{LevelDb, Op}
use model_lib.Store.Cursor.{Before, Cursors}
use model_lib.Store.Queue.{Queue}
use model_lib.Store.Iterator
use model_lib.Store.Iterator.{Iterator}
use model_lib.Store.Iterator.Range.{Before-or_not}
use model_lib.Store.Iterator.Walk.{IsAt, Stepped}
use model_lib.Store.Iterator.Listed.{IsListed, behind, behind-lt}
use model_lib.Store.Impl.History.{Dict, apply, set_key, value}
use model_lib.BackendSync.{Client, Message, Outcome, returned, past_types, end_copy}
use model_lib.BackendSync.State.{Status}
use model_lib.Slave
use model_lib.Slave.{Slave, status_sync}
use model_lib.Replication.{deliver}
use model_lib.Replication.Apply.{proc-copied, proc-copy-end}
use model_lib.Replication.Copy.{or_else, Copied, step-Copied}

deliver-append :
    {M : LevelDb} (s : Slave M) (ms ns : List Message)
    → deliver s (ms ++ ns) ≡ deliver (deliver s ms) ns
unfolding deliver
deliver-append s [] ns = refl
deliver-append s (m ∷ ms) ns = deliver-append (Slave.proc s m) ms ns

-- A database key that begins with the type of a key-value pair is one, and no other is.
pub kv_key : (k : ByteString) → (get_or k 0 0 == DataType.kv) ≡ true → k ≡ encode_kv_key (drop 1 k)
unfolding encode_kv_key
kv_key [] h = absurd (ground arith)
kv_key (c ∷ k) h = ground arith

pub other_key :
    (k j : ByteString) → (get_or k 0 0 == DataType.kv) ≡ false → str_eq k (encode_kv_key j) ≡ false
unfolding encode_kv_key str_eq
other_key [] j h = ground arith
other_key (c ∷ k) j h = ground arith

-- A key past all types is behind every key-value pair.
pub past_types-Before : (k j : ByteString) → past_types k ≡ true → Before (encode_kv_key j) k
unfolding encode_kv_key lex
past_types-Before [] j h = absurd (ground arith)
past_types-Before (c ∷ k) j h = compare_bytes-lex _ _ ∙ ground arith

pub not_empty : (a k : ByteString) → Before a k → k ≢ []
unfolding lex
not_empty [] k h e = cc (compare_bytes-lex [] [], e, h)
not_empty (c ∷ a) k h e = cc (compare_bytes-lex (c ∷ a) [], e, h)

-- What is left behind `start` has no value: all is copied.
all_level :
    (goal base : Dict) (start : ByteString) (d : Dict)
    → Copied goal base start d
    → ((j : ByteString) → Before start (encode_kv_key j) → goal j ≡ none)
    → (j : ByteString) → d j ≡ or_else (goal j) (base j)
all_level goal base start d c none_left j = elim (Before-or_not start (encode_kv_key j)) [
  | inl b ↦ (c j).1 b ∙ rw (none_left j b) refl
  | inr b ↦ (c j).0 b
]

-- An entry that was sent is as its value says; an empty key is not stored.
apply-entry :
    (d : Dict) (r v j : ByteString)
    → r ≢ []
    → apply d (set_key r v) j ≡ (if str_eq (encode_kv_key r) (encode_kv_key j) then some v else d j)
unfolding encode_kv_key str_eq
apply-entry d [] v j ne = absurd (ne refl)
apply-entry d (c ∷ r) v j ne = ground arith

-- The same client, but for what a copy changes.
pub record Kept {L : LevelDb} (c c' : Client L) : Type 0 where
  pub last_seq : c'.last_seq ≡ c.last_seq
  pub is_mirror : c'.is_mirror ≡ c.is_mirror

module _ {L M : LevelDb} (C : Cursors L) (q : Queue L) (all : List ByteString) (base : Dict) where
  -- A copy that has come to `start`, in the middle of its iterator.
  pub record Copying (start : ByteString) (n : ℕ) (t : Iterator L) (s : Slave M) : Type 0 where
    pub at : IsAt C start n t
    pub snapshot : t.db ≡ q.db
    pub room : behind all start < n
    pub copied : Copied (value q) base start (value s.ssdb)

  -- The copy is at its end.
  pub record Ended (c : Client L) (s : Slave M) : Type 0 where
    pub status : c.status ≡ Status.sync
    pub iter : c.iter ≡ none
    pub level : (j : ByteString) → value s.ssdb j ≡ or_else (value q j) (base j)
    pub slave : s.status ≡ status_sync

  -- It is not, and `rounds` keys less are left.
  pub record GoesOn (rounds : ℕ) (start : ByteString) (status : Status) (c : Client L) (s : Slave M)
      : Type 0 where
    pub same : c.status ≡ status
    pub start' : ByteString
    pub n : ℕ
    pub t : Iterator L
    pub iter : c.iter ≡ some t
    pub copying : Copying start' n t s
    pub fewer : behind all start' + rounds ≤ behind all start

  -- What a call of `copy` returns.
  abbrev pub Result : ℕ → ByteString → Client L → Slave M → Outcome L → Type 0
  Result rounds start c s o =
      (ret : ℕ) × (c' : Client L) × (sent : List Message) × (o ≡ returned ret c' sent)
      × Kept c c'
      × (Ended c' (deliver s sent) ⊎ GoesOn rounds start c.status c' (deliver s sent))

  pub end_copy-Result :
      (rounds n : ℕ) (start : ByteString) (c : Client L) (t : Iterator L) (s : Slave M)
      (sent : List Message)
      → c.last_seq < 2 ^ 64
      → Copying start n t (deliver s sent)
      → ((j : ByteString) → Before start (encode_kv_key j) → value q j ≡ none)
      → Result rounds start c s (end_copy c sent)
  unfolding end_copy deliver
  end_copy-Result rounds n start c t s sent small co none_left =
      let message =
        repr (make c.last_seq BinlogType.copy BinlogCommand.end []) ∷ codes "copy_end" ∷ [] in
      let (ssdb, status) =
        proc-copy-end (deliver s sent) c.last_seq (codes "copy_end" ∷ []) small in
      let e = deliver-append s sent (message ∷ []) in
      (
        1,
        _,
        _,
        refl,
        record { last_seq = refl; is_mirror = refl },
        inl (record {
          status = refl;
          iter = refl;
          level = λ j.
              ap (λ r. value r.ssdb j) e
              ∙ ap (λ p. value p j) ssdb
              ∙ all_level (value q) base start (value (deliver s sent).ssdb) co.copied none_left j;
          slave = ap (λ r. r.status) e ∙ status;
        }),
      )

  module _ (listed : IsListed (L.read q.db) all)
      (reliable : (d : M.Db) (b : List Op) → (M.write d b).0 ≡ true) where
    -- The next key of the iterator is passed.
    pub Stepped-Copying :
        (n : ℕ) (start : ByteString) (t t' : Iterator L) (s s' : Slave M)
        → Copying start (suc n) t s
        → Stepped C start n t t'
        → ((j : ByteString)
            → value s'.ssdb j ≡ (
                if str_eq (Iterator.key t') (encode_kv_key j)
                then some (Iterator.val t')
                else value s.ssdb j))
        → Copying (Iterator.key t') n t' s' × (behind all (Iterator.key t') < behind all start)
    Stepped-Copying n start t t' s s' co st made =
        let k = Iterator.key t' in
        let read : L.read q.db k ≡ some (Iterator.val t') =
          subst (λ db. L.read db k ≡ some (Iterator.val t')) co.snapshot st.value in
        let less = behind-lt all start k st.behind (listed k (λ e. cc (e, read))) in
        (
          record {
            at = st.at;
            snapshot = st.same ∙ co.snapshot;
            room = omega (arith, less, co.room);
            copied =
                step-Copied (value q) base (value s.ssdb) (value s'.ssdb) start k (Iterator.val t')
                  co.copied made (λ j e. subst (λ x. L.read q.db x ≡ some (Iterator.val t')) e read)
                  st.behind
                  (λ j b a.
                    subst (λ db. L.read db (encode_kv_key j) ≡ none) co.snapshot
                      (st.gap (encode_kv_key j) b a));
          },
          less,
        )

    pub sent-entry :
        (last_seq : ℕ) (s : Slave M) (sent : List Message) (k v j : ByteString)
        → last_seq < 2 ^ 64
        → (get_or k 0 0 == DataType.kv) ≡ true
        → drop 1 k ≢ []
        → value
            (deliver s (
              sent
              ++ (repr (make last_seq BinlogType.copy BinlogCommand.kset k) ∷ v ∷ []) ∷ [])).ssdb
            j
          ≡ (if str_eq k (encode_kv_key j) then some v else value (deliver s sent).ssdb j)
    unfolding deliver
    sent-entry last_seq s sent k v j small kv ne =
        let r = drop 1 k in
        let e = kv_key k kv in
        subst
          (λ x.
            value
              (deliver s (
                sent
                ++ (repr (make last_seq BinlogType.copy BinlogCommand.kset x) ∷ v ∷ []) ∷ [])).ssdb
              j
            ≡ (if str_eq x (encode_kv_key j) then some v else value (deliver s sent).ssdb j))
          (sym e)
          (ap (λ p. value p.ssdb j) (deliver-append s sent _)
            ∙ proc-copied reliable (deliver s sent) last_seq r v j small
            ∙ apply-entry (value (deliver s sent).ssdb) r v j ne)
