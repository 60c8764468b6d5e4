-- ===== src/Store/LevelDb.antt =====
-- What the store uses of LevelDB (a library outside the repository), as an interface: a database is
-- a value of an unknown type, `read` is its content, and the laws are the documented behaviour of
-- `Get` and of an atomic `Write`. Reads may fail, and so may writes.
use model_lib.Prelude.{◌≡◌, refl, Option, none, some, Bool, true, List, [], ◌∷◌, if◌then◌else◌}
use model_lib.Prelude.Text.{ByteString, str_eq}

-- An operation of a `WriteBatch`.
pub data Op : Type 0 where
  put : ByteString → ByteString → Op
  delete : ByteString → Op

-- The result of `Get`: a value, `IsNotFound`, or another error.
pub data Got : Type 0 where
  found : ByteString → Got
  not_found : Got
  failed : Got

-- What a batch leaves at the key `k`, where `old` stood.
abbrev pub replay : List Op → ByteString → Option ByteString → Option ByteString
replay [] k old = old
replay (put j v ∷ batch) k old = replay batch k (if str_eq j k then some v else old)
replay (delete j ∷ batch) k old = replay batch k (if str_eq j k then none else old)

-- The result of a read agrees with the content.
abbrev pub Agrees : Got → Option ByteString → Type 0
Agrees (found v) content = content ≡ some v
Agrees not_found content = content ≡ none
Agrees failed content = Unit

pub record LevelDb : Type 1 where
  pub Db : Type 0
  pub read : Db → ByteString → Option ByteString
  pub get : Db → ByteString → Got
  pub write : Db → List Op → Bool × Db
  pub get_agrees : (d : Db) (k : ByteString) → Agrees (get d k) (read d k)
  pub write_replay :
      (d : Db) (batch : List Op) (k : ByteString)
      → (write d batch).0 ≡ true
      → read (write d batch).1 k ≡ replay batch k (read d k)

-- A database in memory that never fails.
abbrev pub memory_get : Option ByteString → Got
memory_get none = not_found
memory_get (some v) = found v

pub memory_get-Agrees : (o : Option ByteString) → Agrees (memory_get o) o
memory_get-Agrees none = refl
memory_get-Agrees (some v) = refl

abbrev pub in_memory : LevelDb
in_memory = record {
  Db = ByteString → Option ByteString;
  read = λ d k. d k;
  get = λ d k. memory_get (d k);
  write = λ d batch. (true, λ k. replay batch k (d k));
  get_agrees = λ d k. memory_get-Agrees (d k);
  write_replay = λ d batch k h. refl;
}
