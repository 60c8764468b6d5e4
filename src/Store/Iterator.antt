-- ===== src/Store/Iterator.antt =====
-- `Iterator` of ssdb/src/ssdb/iterator.h and ssdb/src/ssdb/iterator.cpp, and
-- `SSDBImpl::iterator` of ssdb/src/ssdb/ssdb_impl.cpp. A leveldb::Iterator is the snapshot that it was
-- made of and the key that it stands on.
pub mod Range
pub mod Walk
pub mod Listed
pub mod Kv
use Prim.Native.Nat.{Ordering}
use model_lib.Prelude.{
  ℕ, zero, suc, ◌+◌, ◌-◌, Option, none, some, Bool, true, false, not, ◌&&◌, ◌∷◌, ◌==◌,
  if◌then◌else◌, get_or, [],
}
use model_lib.Prelude.Text.{ByteString, str_eq}
use model_lib.Util.Bytes.{compare_bytes}
use model_lib.Store.Const.DataType
use model_lib.Store.Keys.{decode_kv_key}
use model_lib.Store.LevelDb.{LevelDb}
use model_lib.Store.Cursor.{Cursors}
use model_lib.Store.Queue.{Queue}

pub data Direction : Type 0 where
  forward : Direction
  backward : Direction

pub record Iterator (L : LevelDb) : Type 0 where
  pub db : L.Db
  pub it : Option ByteString
  pub end_key : ByteString
  pub limit : ℕ
  pub is_first : Bool
  pub direction : Direction

abbrev pub is_empty : ByteString → Bool
is_empty [] = true
is_empty (c ∷ s) = false

-- `it->key().compare(end) > 0`, or `< 0` backwards.
unfoldable pub past_end : Direction → ByteString → ByteString → Bool
past_end forward k end_key =
    not (is_empty end_key) && (elim (compare_bytes k end_key) [ Ordering.gt ↦ true | _ ↦ false ])
past_end backward k end_key =
    not (is_empty end_key) && (elim (compare_bytes k end_key) [ Ordering.lt ↦ true | _ ↦ false ])

abbrev pub or_empty : Option ByteString → ByteString
or_empty none = []
or_empty (some v) = v

module _ {L : LevelDb} where
  -- The key of a valid cursor; `it->key()` of another is empty here.
  unfoldable pub key : Iterator L → ByteString
  key t = or_empty t.it

  unfoldable pub val : Iterator L → ByteString
  unfolding key
  val t = or_empty (L.read t.db (key t))

  -- Once the iterator has ended `next` returns false for good.
  abbrev pub check : Iterator L → Option ByteString → Bool × Iterator L
  check t none = (false, record t { limit = 0; it = none })
  check t (some k) =
      if past_end t.direction k t.end_key
      then (false, record t { limit = 0; it = some k })
      else (true, record t { limit = t.limit - 1; it = some k })

  module _ (C : Cursors L) where
    -- `it->Next()` or `it->Prev()`, which want a valid cursor.
    unfoldable pub move : L.Db → Direction → Option ByteString → Option ByteString
    move db direction none = none
    move db forward (some k) = C.next db k
    move db backward (some k) = C.prev db k

    unfoldable pub next : Iterator L → Bool × Iterator L
    unfolding past_end move
    next t =
        let it = if t.is_first then t.it else move t.db t.direction t.it in
        if t.limit == 0 then (false, t) else check (record t { is_first = false }) it

    -- `while(offset-- > 0)`.
    unfoldable pub skip : Iterator L → ℕ → Bool × Iterator L
    unfolding next
    skip t zero = (true, t)
    skip t (suc offset) =
        let (ok, t') = next t in elim ok [ true ↦ skip t' offset | false ↦ (false, t') ]

    -- The cursor behind `start`.
    unfoldable pub seek_behind : L.Db → ByteString → Option ByteString → Option ByteString
    seek_behind db start none = none
    seek_behind db start (some k) = if str_eq k start then C.next db k else some k

    -- `SSDBImpl::iterator`.
    unfoldable pub iterator : Queue L → ByteString → ByteString → ℕ → Iterator L
    unfolding seek_behind
    iterator q start end_key limit = record {
      db = q.db;
      it = seek_behind q.db start (C.seek q.db start);
      end_key = end_key;
      limit = limit;
      is_first = true;
      direction = forward;
    }
