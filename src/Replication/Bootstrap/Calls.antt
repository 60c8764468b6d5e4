-- ===== src/Replication/Bootstrap/Calls.antt =====
-- One round of the thread of `BackendSync::Client` of ssdb/src/backend_sync.cpp while a copy is made.
use model_lib.Prelude.{
  ℕ, ◌-◌, ◌^◌, ◌<◌, ◌≡◌, refl, sym, ap, ◌∙◌, subst, Option, none, some, Bool, true, false, List, [],
  ◌∷◌, arith, length, if◌then◌else◌,
}
use model_lib.Prelude.Text.{ByteString}
use model_lib.Util.Bytes.Order.{compare_bytes-lex, lex}
use model_lib.Store.Const.DataType
use model_lib.Store.Keys.{encode_kv_key}
use model_lib.Store.LevelDb.{LevelDb, Op}
use model_lib.Store.Cursor.{Before, Cursors}
use model_lib.Store.Queue.{Queue}
use model_lib.Store.Impl.History.{Dict, value}
use model_lib.Store.Iterator.Listed.{IsListed, behind-le_length}
use model_lib.BackendSync
use model_lib.BackendSync.{
  Client, Message, Outcome, returned, sync, sync_loop, find_log, expect_seq, with_found, at_log,
  after, reset, round, copy, sent_before, copy_loop, copy_from, and_copy,
}
use model_lib.BackendSync.State.{Status, is_copy, is_out_of_sync}
use model_lib.Slave.{Slave}
use model_lib.Replication.{deliver}
use model_lib.Replication.Copy.Step.{Copying}
use model_lib.Replication.Copy.Loop.{copy_loop-Result}
use model_lib.Store.Iterator.{Iterator, iterator}
use model_lib.Store.Iterator.Range.{iterator-ahead}
use model_lib.Replication.Copy.Step.{Result}

-- The copy starts before every key-value pair.
before-all : (j : ByteString) → Before (DataType.min_prefix ∷ []) (encode_kv_key j)
unfolding encode_kv_key lex
before-all j = compare_bytes-lex (DataType.min_prefix ∷ []) (DataType.kv ∷ j) ∙ refl

module _ {L M : LevelDb} (C : Cursors L) (q : Queue L) (all : List ByteString)
    (listed : IsListed (L.read q.db) all) (no_empty : value q [] ≡ none)
    (reliable : (d : M.Db) (b : List Op) → (M.write d b).0 ≡ true) where
  first-Copying :
      (s : Slave M)
      → length all < 2 ^ 64 - 1
      → Copying C q all
          (value s.ssdb)
          (DataType.min_prefix ∷ [])
          (2 ^ 64 - 1)
          (iterator C q (DataType.min_prefix ∷ []) [] (2 ^ 64 - 1))
          s
  first-Copying s fits = record {
    at = record {
      left = unfold iterator in refl;
      no_end = unfold iterator in refl;
      forward = unfold iterator in refl;
      place = unfold iterator in iterator-ahead C q (DataType.min_prefix ∷ []) [] (2 ^ 64 - 1);
    };
    snapshot = unfold iterator in refl;
    room = omega (arith, behind-le_length all (DataType.min_prefix ∷ []));
    copied = λ j. (λ h. absurd (h (before-all j)), λ h. refl);
  }

  -- The rounds of a call, with the iterator that it has or makes.
  called :
      (base : Dict) (start : ByteString) (n rounds : ℕ) (c : Client L) (s : Slave M)
      (i : Option (Iterator L))
      → c.last_seq < 2 ^ 64
      → c.iter ≡ i
      → Copying C q all base start n (copy_from C c q i) s
      → Result C q all base rounds start c s (copy_loop C rounds c (copy_from C c q c.iter) 0 [])
  unfolding deliver
  called base start n rounds c s i small it co =
      subst
        (λ o. Result C q all base rounds start c s (copy_loop C rounds c (copy_from C c q o) 0 []))
        (sym it)
        (copy_loop-Result C q all base listed no_empty reliable rounds n 0 start c
          (copy_from C c q i) s [] small co)

  pub copy-Result :
      (base : Dict) (start : ByteString) (n : ℕ) (c : Client L) (t : Iterator L) (s : Slave M)
      → c.last_seq < 2 ^ 64
      → c.iter ≡ some t
      → Copying C q all base start n t s
      → Result C q all base 1000 start c s (copy C q c)
  copy-Result base start n c t s small it co =
      unfold copy in called base start n 1000 c s (some t) small it co

  pub copy-first :
      (c : Client L) (s : Slave M)
      → c.last_seq < 2 ^ 64
      → c.iter ≡ none
      → c.last_key ≡ []
      → length all < 2 ^ 64 - 1
      → Result C q all (value s.ssdb) 1000 (DataType.min_prefix ∷ []) c s (copy C q c)
  copy-first c s small it key fits =
      unfold copy in
      called (value s.ssdb) (DataType.min_prefix ∷ []) (2 ^ 64 - 1) 1000 c s none small it (
        subst
          (λ k.
            Copying C q all (value s.ssdb) (DataType.min_prefix ∷ []) (2 ^ 64 - 1)
              (iterator C q (if BackendSync.is_empty k then DataType.min_prefix ∷ [] else k) []
                (2 ^ 64 - 1))
              s)
          (sym key) (first-Copying s fits))

if_true {ℓ} : {A : Type ℓ} (b : Bool) (x y : A) → b ≡ true → (if b then x else y) ≡ x
if_true true x y h = refl
if_true false x y h = cc h

if_false {ℓ} : {A : Type ℓ} (b : Bool) (x y : A) → b ≡ false → (if b then x else y) ≡ y
if_false true x y h = cc h
if_false false x y h = refl

module _ {L : LevelDb} (C : Cursors L) (q : Queue L) where
  round-and_copy :
      (fuel : ℕ) (c : Client L)
      → is_out_of_sync c.status ≡ false
      → round C fuel (λ i. q) q c ≡ and_copy C q (sync C fuel (λ i. q) c)
  unfolding round
  round-and_copy fuel c h = if_false (is_out_of_sync c.status) _ _ h

  -- A round whose search sends nothing is a copy, if one is to be made.
  pub round-copy :
      (fuel ret : ℕ) (c c1 c' : Client L) (sent : List Message)
      → c.status ≡ Status.copy
      → sync C fuel (λ i. q) c ≡ returned 0 c1 []
      → c1.status ≡ Status.copy
      → copy C q c1 ≡ returned ret c' sent
      → round C fuel (λ i. q) q c ≡ returned ret c' sent
  round-copy fuel ret c c1 c' sent st e st1 made =
      round-and_copy fuel c (ap is_out_of_sync st)
      ∙ ap (and_copy C q) e
      ∙ if_true (is_copy c1.status) (sent_before C [] (copy C q c1)) (returned 0 c1 [])
          (ap is_copy st1)
      ∙ ap (sent_before C []) made

  pub round-sync :
      (fuel : ℕ) (c : Client L)
      → c.status ≡ Status.sync
      → sync C fuel (λ i. q) c ≡ returned 0 c []
      → round C fuel (λ i. q) q c ≡ returned 0 c []
  round-sync fuel c st e =
      round-and_copy fuel c (ap is_out_of_sync st)
      ∙ ap (and_copy C q) e
      ∙ if_false (is_copy c.status) (sent_before C [] (copy C q c)) (returned 0 c [])
          (ap is_copy st)
