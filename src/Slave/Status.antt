-- ===== src/Slave/Status.antt =====
-- What a slave saved of its position, a new one loads.
use mathlib.Core.Option.{some-injective}
use model_lib.Prelude.{
  ℕ, ◌^◌, ◌≤◌, ◌<◌, ◌≡◌, ◌≢◌, refl, ap, sym, ◌∙◌, some, true, false, inr, List, [], ◌∷◌, ◌++◌,
  arith, length, length-take, get_or,
}
use model_lib.Prelude.Int.{ℤ, pos}
use model_lib.Prelude.Text.{ByteString, codes}
use model_lib.Util.Number.{
  str_int, str_uint64, str_to_uint64, strtoull, scan_number, skip_spaces, read_sign, read_digits,
  starts_with_digit,
}
use model_lib.Util.Number.RoundTrip.{str_to_uint64-str_uint64}
use model_lib.Store.Const.BinlogType
use model_lib.Store.Keys.{encode_hash_key}
use model_lib.Store.LevelDb.{LevelDb, Op, Got, found, not_found, failed, Agrees}
use model_lib.Store.Queue.{Queue}
use model_lib.Store.Impl.{get_result, hget, hset, is_empty}
use model_lib.Store.Impl.Hash.{hset-found}
use model_lib.Store.Impl.Frame.{hset-spares}
use model_lib.Slave.{
  Slave, new_slave, make_id, status_key, save_status, load_status, keep_empty, read_seq,
}

no_digits : str_to_uint64 0 [] ≡ (0, 0)
unfolding str_to_uint64 strtoull scan_number skip_spaces read_sign read_digits starts_with_digit
no_digits = refl

read_seq-str_uint64 : (v : ℕ) → v < 2 ^ 64 → read_seq (str_uint64 v) 0 ≡ v
read_seq-str_uint64 v h = go (str_uint64 v) (str_to_uint64-str_uint64 0 v h)
  where
    go : (t : ByteString) → str_to_uint64 0 t ≡ (v, 0) → read_seq t 0 ≡ v
    go [] e = ap (λ (p : ℕ × ℕ). p.0) (sym no_digits ∙ e)
    go (c ∷ t) e = ap (λ (p : ℕ × ℕ). p.0) e

keep_empty_lem : (key : ByteString) → keep_empty key [] ≡ key
keep_empty_lem [] = refl
keep_empty_lem (c ∷ key) = refl

make_id-length : (ip : ByteString) (port : ℤ) → length (make_id ip port) ≤ 127
unfolding make_id
make_id-length ip port = omega (arith, length-take 127 (ip ++ b'|' ∷ str_int port))

key-ne-seq : codes "last_key" ≢ codes "last_seq"
key-ne-seq e = let c = ap (λ l. get_or l 5 0) e in omega (arith, c)

module _ {L : LevelDb} where
  hget-read :
      (q : Queue L) (name key v : ByteString)
      → L.get q.db (encode_hash_key name key) ≢ failed
      → L.read q.db (encode_hash_key name key) ≡ some v
      → hget q name key [] ≡ (pos 1, v)
  unfolding hget
  hget-read q name key v reads here =
      go (L.get q.db (encode_hash_key name key)) (L.get_agrees q.db (encode_hash_key name key))
        reads
    where
      go :
          (g : Got)
          → Agrees g (L.read q.db (encode_hash_key name key))
          → g ≢ failed
          → get_result g [] ≡ (pos 1, v)
      go (found w) a h = ap (λ x. (pos 1, x)) (some-injective _ _ (sym a ∙ here))
      go not_found a h = cc (a, here)
      go failed a h = absurd (h refl)

  -- Two fields that are written one after the other.
  hset-hset :
      (q : Queue L) (name a b v w : ByteString) (t : ℕ)
      → is_empty name ≡ false
      → is_empty a ≡ false
      → is_empty b ≡ false
      → length name ≤ 255
      → length a ≤ 255
      → length b ≤ 255
      → a ≢ b
      → ((d : L.Db) (k : ByteString) → L.get d k ≢ failed)
      → ((d : L.Db) (b : List Op) → (L.write d b).0 ≡ true)
      → (hget (hset (hset q name a v t).1 name b w t).1 name a [] ≡ (pos 1, v))
        × (hget (hset (hset q name a v t).1 name b w t).1 name b [] ≡ (pos 1, w))
  hset-hset q name a b v w t named a_named b_named short a_short b_short ne reads reliable =
      let ((m, ok1), other1) =
        hset-spares q name a v name b t named a_named short a_short short (reads _ _) reliable
          (inr ne) in
      let q1 = (hset q name a v t).1 in
      let ((n, ok2), same) =
        hset-spares q1 name b w name a t named b_named short b_short short (reads _ _) reliable
          (inr (λ e. ne (sym e))) in
      (
        hget-read _ name a v (reads _ _) (same ∙ hset-found q name a v t m (reads _ _) ok1),
        hget-read _ name b w (reads _ _) (hset-found q1 name b w t n (reads _ _) ok2),
      )

  -- A slave that starts again goes on where it was: the position that `save_status` wrote is what
  -- `load_status` gives to a new slave of the same master, if LevelDB does not fail.
  pub load_status-save_status :
      (s : Slave L) (ssdb : Queue L) (ip : ByteString) (port : ℤ) (garbage : ℕ)
      → s.id ≡ make_id ip port
      → s.last_seq < 2 ^ 64
      → ((d : L.Db) (k : ByteString) → L.get d k ≢ failed)
      → ((d : L.Db) (b : List Op) → (L.write d b).0 ≡ true)
      → ((load_status (new_slave ssdb (save_status s).meta ip port garbage)).last_seq ≡ s.last_seq)
        × ((load_status (new_slave ssdb (save_status s).meta ip port garbage)).last_key
            ≡ s.last_key)
  unfolding load_status save_status new_slave status_key
  load_status-save_status s ssdb ip port garbage same fits reads reliable =
      let name = codes "slave.status." ++ s.id in
      let short : length name ≤ 255 = omega (arith, ap length same, make_id-length ip port) in
      let (key, text) =
        hset-hset s.meta name (codes "last_key") (codes "last_seq") s.last_key
          (str_uint64 s.last_seq) BinlogType.sync refl refl refl short (omega arith) (omega arith)
          key-ne-seq reads reliable in
      rw (sym same, key, text) (read_seq-str_uint64 s.last_seq fits, keep_empty_lem s.last_key)
