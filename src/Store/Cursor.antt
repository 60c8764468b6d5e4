-- ===== src/Store/Cursor.antt =====
-- What the store uses of leveldb::Iterator, as an interface over a LevelDb: a cursor is not valid, or
-- stands on a key of the snapshot that it was made of. The order is that of
-- leveldb::BytewiseComparator, the default.
pub mod Table
use Prim.Native.Nat.{Ordering}
use model_lib.Prelude.{◌≡◌, ◌≢◌, Option, none, some}
use model_lib.Prelude.Text.{ByteString}
use model_lib.Util.Bytes.{compare_bytes}
use model_lib.Store.LevelDb.{LevelDb}

abbrev pub Before : ByteString → ByteString → Type 0
Before a b = compare_bytes a b ≡ Ordering.lt

module _ (L : LevelDb) where
  -- The first and the last key of the database with the property `P`, or none where there is none.
  abbrev pub Least : L.Db → (ByteString → Type 0) → Option ByteString → Type 0
  Least d P none = (j : ByteString) → P j → L.read d j ≡ none
  Least d P (some k) =
      P k × (L.read d k ≢ none) × ((j : ByteString) → P j → L.read d j ≢ none → ¬ Before j k)

  abbrev pub Greatest : L.Db → (ByteString → Type 0) → Option ByteString → Type 0
  Greatest d P none = (j : ByteString) → P j → L.read d j ≡ none
  Greatest d P (some k) =
      P k × (L.read d k ≢ none) × ((j : ByteString) → P j → L.read d j ≢ none → ¬ Before k j)

  -- `Seek`, `SeekToLast`, `Next` and `Prev`; the last two want a valid cursor.
  pub record Cursors : Type 0 where
    pub seek : L.Db → ByteString → Option ByteString
    pub seek_to_last : L.Db → Option ByteString
    pub next : L.Db → ByteString → Option ByteString
    pub prev : L.Db → ByteString → Option ByteString
    pub seek_least :
        (d : L.Db) (target : ByteString) → Least d (λ j. ¬ Before j target) (seek d target)
    pub last_greatest : (d : L.Db) → Greatest d (λ j. Unit) (seek_to_last d)
    pub next_least : (d : L.Db) (k : ByteString) → Least d (λ j. Before k j) (next d k)
    pub prev_greatest : (d : L.Db) (k : ByteString) → Greatest d (λ j. Before j k) (prev d k)
