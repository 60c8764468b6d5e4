-- ===== src/Replication/CatchUp.antt =====
-- A replica that follows the log of a store until its end has the same keys and values.
use model_lib.Prelude.{
  ℕ, ◌^◌, ◌<◌, ◌≡◌, ◌≢◌, ◌⊎◌, refl, ap, sym, ◌∙◌, subst, inl, inr, Option, none, some, true, List,
  [], ◌∷◌, arith, if◌then◌else◌, Bool-cases,
}
use model_lib.Prelude.Int.{ℤ, pos}
use model_lib.Prelude.Text.{ByteString, str_eq, str_eq_sound, str_eq_refl}
use model_lib.Store.Const.BinlogType
use model_lib.Store.Const.BinlogCommand
use model_lib.Store.Keys.{encode_kv_key}
use model_lib.Store.Binlog
use model_lib.Store.Binlog.{Binlog, make, repr, make_fields}
use model_lib.Store.LevelDb.{LevelDb, Op, Got, found, not_found, failed, Agrees}
use model_lib.Store.Queue.{Queue}
use model_lib.Store.Impl.{get_result, raw_get}
use model_lib.Store.Impl.History.{Request, set_key, del_key, Dict, apply, apply_all, value}
use model_lib.BackendSync.{Message, log_message}
use model_lib.Slave
use model_lib.Slave.{Slave}
use model_lib.Replication.{deliver}
use model_lib.Replication.Apply.{proc-set, proc-del}

-- A request of the list writes the key `j`.
abbrev pub Touches : List Request → ByteString → Type 0
Touches [] j = ⊥
Touches (set_key [] v ∷ rs) j = Touches rs j
Touches (set_key (c ∷ k) v ∷ rs) j = (str_eq (c ∷ k) j ≡ true) ⊎ Touches rs j
Touches (del_key k ∷ rs) j = (str_eq k j ≡ true) ⊎ Touches rs j

pub untouched :
    (d : Dict) (rs : List Request) (j : ByteString) → (apply_all d rs j ≡ d j) ⊎ Touches rs j
untouched d [] j = inl refl
untouched d (set_key [] v ∷ rs) j = ground (arith, untouched (apply d (set_key [] v)) rs j)
untouched d (set_key (c ∷ k) v ∷ rs) j =
    ground (arith, untouched (apply d (set_key (c ∷ k) v)) rs j)
untouched d (del_key k ∷ rs) j = ground (arith, untouched (apply d (del_key k)) rs j)

module _ {L : LevelDb} (q : Queue L) (steady : (k : ByteString) → L.get q.db k ≢ failed) where
  -- What the store has at the key of a record.
  raw_get-value :
      (k : ByteString)
      → ((v : ByteString) × (raw_get q (encode_kv_key k) [] ≡ (pos 1, v)) × (value q k ≡ some v))
        ⊎ ((raw_get q (encode_kv_key k) [] ≡ (pos 0, [])) × (value q k ≡ none))
  unfolding raw_get
  raw_get-value k =
      go (L.get q.db (encode_kv_key k)) (L.get_agrees q.db (encode_kv_key k))
        (steady (encode_kv_key k))
    where
      go :
          (g : Got)
          → Agrees g (value q k)
          → g ≢ failed
          → ((v : ByteString) × (get_result g [] ≡ (pos 1, v)) × (value q k ≡ some v))
            ⊎ ((get_result g [] ≡ (pos 0, [])) × (value q k ≡ none))
      go (found v) a h = inl (v, refl, a)
      go not_found a h = inr (refl, a)
      go failed a h = absurd (h refl)

set_message :
    (log : Binlog) (v : ByteString)
    → Binlog.cmd log ≡ BinlogCommand.kset
    → log_message log (pos 1, v) ≡ (repr log ∷ v ∷ []) ∷ []
unfolding log_message
set_message log v h = rw (h, if◌then◌else◌) refl

no_message :
    (log : Binlog) (v : ByteString)
    → Binlog.cmd log ≡ BinlogCommand.kset
    → log_message log (pos 0, v) ≡ []
unfolding log_message
no_message log v h = rw (h, if◌then◌else◌) refl

del_message :
    (log : Binlog) (r : ℤ × ByteString)
    → Binlog.cmd log ≡ BinlogCommand.kdel
    → log_message log r ≡ (repr log ∷ []) ∷ []
unfolding log_message
del_message log (ret, v) h = rw (h, if◌then◌else◌) refl

-- A dictionary has what `goal` has, but at keys that `rs` writes.
abbrev pub Follows : Dict → Dict → List Request → Type 0
Follows goal d rs = (j : ByteString) → (d j ≡ goal j) ⊎ Touches rs j

-- It still does when a first write of the list is made on it with the value of `goal`, or with any
-- value where the key is written again.
write-Follows :
    (goal d d' : Dict) (k : ByteString) (w : Option ByteString) (rs : List Request)
    → ((j : ByteString) → d' j ≡ (if str_eq k j then w else d j))
    → (w ≡ goal k) ⊎ Touches rs k
    → ((j : ByteString) → (d j ≡ goal j) ⊎ ((str_eq k j ≡ true) ⊎ Touches rs j))
    → Follows goal d' rs
write-Follows goal d d' k w rs made here before j = elim (Bool-cases (str_eq k j)) [
  | inl e ↦
      subst (λ i. (d' i ≡ goal i) ⊎ Touches rs i) (str_eq_sound k j e)
        (ground (arith, made k, str_eq_refl k, here))
  | inr e ↦ ground (arith, made j, before j, e)
]

-- Nothing is sent for a key that is written again.
skip-Follows :
    (goal d : Dict) (k : ByteString) (rs : List Request)
    → Touches rs k
    → ((j : ByteString) → (d j ≡ goal j) ⊎ ((str_eq k j ≡ true) ⊎ Touches rs j))
    → Follows goal d rs
skip-Follows goal d k rs again before j = elim (Bool-cases (str_eq k j)) [
  | inl e ↦ inr (subst (Touches rs) (str_eq_sound k j e) again)
  | inr e ↦ ground (arith, before j, e)
]

-- The last value of a key is the one that a first write left, or the key is written again.
last-value :
    (goal d : Dict) (r : Request) (rs : List Request) (k : ByteString)
    → ((j : ByteString) → goal j ≡ apply_all d (r ∷ rs) j)
    → (apply d r k ≡ goal k) ⊎ Touches rs k
last-value goal d r rs k all = elim (untouched (apply d r) rs k) [
  | inl e ↦ inl (sym (all k ∙ e))
  | inr t ↦ inr t
]

module _ {L M : LevelDb} (q : Queue L) (steady : (k : ByteString) → L.get q.db k ≢ failed)
    (reliable : (d : M.Db) (b : List Op) → (M.write d b).0 ≡ true) where
  -- The messages leave the slave so.
  abbrev pub Leaves : Slave M → List Request → List Message → Type 0
  Leaves s rs sent = Follows (value q) (value (deliver s sent).ssdb) rs

  -- The slave takes the message of the record of a first write of `rs`. The value of `q` may be a
  -- later one, and where the key is gone nothing is sent.
  pub set-Follows :
      (s : Slave M) (n c : ℕ) (k v : ByteString) (rs : List Request) (d : Dict)
      → n < 2 ^ 64
      → ((j : ByteString) → value q j ≡ apply_all d (set_key (c ∷ k) v ∷ rs) j)
      → Follows (value q) (value s.ssdb) (set_key (c ∷ k) v ∷ rs)
      → Leaves s rs (
          log_message
            (make n BinlogType.sync BinlogCommand.kset (encode_kv_key (c ∷ k)))
            (raw_get q (encode_kv_key (c ∷ k)) []))
  unfolding deliver
  set-Follows s n c k v rs d small all before =
      let log = make n BinlogType.sync BinlogCommand.kset (encode_kv_key (c ∷ k)) in
      let (l, m, t, cmd, at) =
        make_fields n BinlogType.sync BinlogCommand.kset (encode_kv_key (c ∷ k)) small in
      elim (raw_get-value q steady (c ∷ k)) [
        | inl (w, e, here) ↦
            subst (Leaves s rs) (sym (ap (log_message log) e ∙ set_message log w cmd)) (
              write-Follows (value q) (value s.ssdb) (value (Slave.proc s (repr log ∷ w ∷ [])).ssdb)
                (c ∷ k) (some w) rs (λ j. proc-set reliable s n (c ∷ k) w j small) (inl (sym here))
                before)
        | inr (e, here) ↦
            subst (Leaves s rs) (sym (ap (log_message log) e ∙ no_message log [] cmd)) (
              skip-Follows (value q) (value s.ssdb) (c ∷ k) rs
                (ground (
                  arith,
                  here,
                  last-value (value q) d (set_key (c ∷ k) v) rs (c ∷ k) all,
                  str_eq_refl (c ∷ k),
                ))
                before)
      ]

  pub del-Follows :
      (s : Slave M) (n : ℕ) (k : ByteString) (r : ℤ × ByteString) (rs : List Request) (d : Dict)
      → n < 2 ^ 64
      → ((j : ByteString) → value q j ≡ apply_all d (del_key k ∷ rs) j)
      → Follows (value q) (value s.ssdb) (del_key k ∷ rs)
      → Leaves s rs (log_message (make n BinlogType.sync BinlogCommand.kdel (encode_kv_key k)) r)
  unfolding deliver
  del-Follows s n k r rs d small all before =
      let log = make n BinlogType.sync BinlogCommand.kdel (encode_kv_key k) in
      let (l, m, t, cmd, at) =
        make_fields n BinlogType.sync BinlogCommand.kdel (encode_kv_key k) small in
      subst (Leaves s rs) (sym (del_message log r cmd)) (
        write-Follows (value q) (value s.ssdb) (value (Slave.proc s (repr log ∷ [])).ssdb) k none rs
          (λ j. proc-del reliable s n k j small)
          (ground (arith, last-value (value q) d (del_key k) rs k all, str_eq_refl k)) before)
