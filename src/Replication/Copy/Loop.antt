-- ===== src/Replication/Copy/Loop.antt =====
-- A call of `BackendSync::Client::copy` of ssdb/src/backend_sync.cpp.
use model_lib.Prelude.{
  ℕ, zero, suc, ◌+◌, ◌^◌, ◌<◌, ◌≡◌, ◌≢◌, refl, ap, ◌∙◌, drop, subst, inl, inr, none, some, true,
  false, List, [], ◌∷◌, ◌==◌, arith, get_or, if◌then◌else◌, Bool-cases,
}
use model_lib.Prelude.Text.{ByteString}
use model_lib.Store.Const.DataType
use model_lib.Store.Keys.{encode_kv_key}
use model_lib.Store.LevelDb.{LevelDb, Op}
use model_lib.Store.Cursor.{Cursors}
use model_lib.Store.Queue.{Queue}
use model_lib.Store.Iterator
use model_lib.Store.Iterator.{Iterator}
use model_lib.Store.Iterator.Walk.{next-Stepped}
use model_lib.Store.Iterator.Listed.{IsListed, behind}
use model_lib.Store.Impl.History.{Dict, value}
use model_lib.BackendSync
use model_lib.BackendSync.{Client, Message, Outcome, past_types, copy_loop, end_copy, returned}
use model_lib.Slave.{Slave}
use model_lib.Replication.{deliver}
use model_lib.Replication.Copy.Step.{
  Copying, Result, end_copy-Result, Stepped-Copying, sent-entry, other_key, kv_key,
  past_types-Before, not_empty,
}

is_empty-not : (k : ByteString) → k ≢ [] → BackendSync.is_empty k ≡ false
is_empty-not [] h = absurd (h refl)
is_empty-not (c ∷ k) h = refl

module _ {L : LevelDb} (q : Queue L) where
  -- A pair of the store has a key that is not empty.
  has_name :
      (k v : ByteString)
      → value q [] ≡ none
      → (get_or k 0 0 == DataType.kv) ≡ true
      → L.read q.db k ≡ some v
      → drop 1 k ≢ []
  has_name k v no_empty kv read e =
      let same : k ≡ encode_kv_key [] = kv_key k kv ∙ ap encode_kv_key e in
      cc (ap (L.read q.db) same, read, no_empty)

module _ {L M : LevelDb} (C : Cursors L) (q : Queue L) (all : List ByteString) (base : Dict)
    (listed : IsListed (L.read q.db) all) (no_empty : value q [] ≡ none)
    (reliable : (d : M.Db) (b : List Op) → (M.write d b).0 ≡ true) where
  -- A round that passes a key leaves the other rounds one key less.
  one_more :
      (rounds : ℕ) (start k : ByteString) (c : Client L) (s : Slave M) (o : Outcome L)
      → behind all k < behind all start
      → Result C q all base rounds k (record c { last_key = k }) s o
      → Result C q all base (suc rounds) start c s o
  one_more rounds start k c s o less (ret, c', sent, e, kept, inl ended) =
      (ret, c', sent, e, record { last_seq = kept.last_seq; is_mirror = kept.is_mirror }, inl ended)
  one_more rounds start k c s o less (ret, c', sent, e, kept, inr g) = (
    ret,
    c',
    sent,
    e,
    record { last_seq = kept.last_seq; is_mirror = kept.is_mirror },
    inr (record {
      same = g.same;
      start' = g.start';
      n = g.n;
      t = g.t;
      iter = g.iter;
      copying = g.copying;
      fewer = omega (arith, g.fewer);
    }),
  )

  pub copy_loop-Result :
      (rounds n ret : ℕ) (start : ByteString) (c : Client L) (t : Iterator L) (s : Slave M)
      (sent : List Message)
      → c.last_seq < 2 ^ 64
      → Copying C q all base start n t (deliver s sent)
      → Result C q all base rounds start c s (copy_loop C rounds c t ret sent)
  unfolding copy_loop
  copy_loop-Result zero n ret start c t s sent small co = (
    ret,
    _,
    sent,
    refl,
    record { last_seq = refl; is_mirror = refl },
    inr (record {
      same = refl;
      start' = start;
      n = n;
      t = t;
      iter = refl;
      copying = co;
      fewer = omega arith;
    }),
  )
  copy_loop-Result (suc rounds) zero ret start c t s sent small co = absurd (omega (arith, co.room))
  copy_loop-Result (suc rounds) (suc n) ret start c t s sent small co =
      elim (next-Stepped C start n t co.at) [
        | inl (e, nothing) ↦
            rw (e, if◌then◌else◌)
              (end_copy-Result C q all base (suc rounds) (suc n) start c t s sent small co (λ j b.
                subst (λ db. L.read db (encode_kv_key j) ≡ none) co.snapshot
                  (nothing (encode_kv_key j) b)))
        | inr (t', st) ↦
            let k = Iterator.key t' in
            let ne = is_empty-not k (not_empty start k st.behind) in
            elim (Bool-cases (past_types k)) [
              | inl p ↦
                  rw (st.result, if◌then◌else◌, ne, p)
                    (end_copy-Result C q all base (suc rounds) (suc n) start c t s sent small co
                      (λ j b.
                        subst (λ db. L.read db (encode_kv_key j) ≡ none) co.snapshot
                          (st.gap (encode_kv_key j) b (past_types-Before k j p))))
              | inr p ↦ elim (Bool-cases (get_or k 0 0 == DataType.kv)) [
                | inl kv ↦
                    let (copying, less) =
                      Stepped-Copying C q all base listed reliable n start t t' (deliver s sent) _
                        co st
                        (λ j.
                          sent-entry C q all base listed reliable c.last_seq s sent k
                            (Iterator.val t') j small kv
                            (has_name q k (Iterator.val t') no_empty kv (
                              subst (λ db. L.read db k ≡ some (Iterator.val t')) co.snapshot
                                st.value))) in
                    rw (st.result, if◌then◌else◌, ne, p, kv)
                      (one_more rounds start k c s _ less (
                        copy_loop-Result rounds n (ret + 1) k (record c { last_key = k }) t' s _
                          small copying))
                | inr other ↦
                    let (copying, less) =
                      Stepped-Copying C q all base listed reliable n start t t' (deliver s sent)
                        (deliver s sent) co st
                        (λ j. rw (other_key k j other, if◌then◌else◌) refl) in
                    rw (st.result, if◌then◌else◌, ne, p, other)
                      (one_more rounds start k c s _ less (
                        copy_loop-Result rounds n ret k (record c { last_key = k }) t' s sent small
                          copying))
              ]
            ]
      ]
