-- ===== src/Util/Config.antt =====
-- `Config` of ssdb/src/util/config.h and ssdb/src/util/config.cpp. The JSON library (ssdb/src/util/json.hpp)
-- is a parameter.
pub mod Fields
use model_lib.Prelude.{ℕ, suc, ◌≡◌, ◌≢◌, Option, none, some, Bool, true, if◌then◌else◌, []}
use model_lib.Prelude.Int.{ℤ, pos, negsuc}
use model_lib.Prelude.Text.{ByteString, codes}

-- What the loader uses of the library. `index` is `js[key]`, which throws where `js` is neither an object
-- nor null, and is null where an object has no such member; `parse` is `fp >> js`, and `int` the
-- conversion to an int.
pub record Json : Type 1 where
  pub Value : Type 0
  pub parse : ByteString → Option Value
  pub index : Value → ByteString → Option Value
  pub is_object : Value → Bool
  pub is_string : Value → Bool
  pub is_number : Value → Bool
  pub text : Value → ByteString
  pub int : Value → ℤ
  pub index_object : (v : Value) (key : ByteString) → is_object v ≡ true → index v key ≢ none

pub record Config : Type 0 where
  pub data_dir : ByteString
  pub meta_dir : ByteString
  pub ip : ByteString
  pub port : ℤ
  pub cache_size : ℤ
  pub block_size : ℤ
  pub write_buffer_size : ℤ
  pub compression : ByteString
  pub master_port : ℤ
  pub master_ip : ByteString

-- The constructor.
abbrev pub new_config : Config
new_config = record {
  data_dir = codes "ssdb/data";
  meta_dir = codes "ssdb/meta";
  ip = codes "127.0.0.1";
  port = pos 8888;
  cache_size = pos 500;
  block_size = pos 32;
  write_buffer_size = pos 64;
  compression = codes "yes";
  master_port = negsuc 0;
  master_ip = [];
}

-- `none` is an exception of the library, which nothing catches.
infixl 5 ◌>>=◌
abbrev pub ◌>>=◌ {ℓ κ} : {A : Type ℓ} {B : Type κ} → Option A → (A → Option B) → Option B
none >>= f = none
some a >>= f = f a

module _ (J : Json) where
  open J use {index, is_object, is_string, is_number, text, int}

  -- A member that is set if it is a string, or a number.
  abbrev pub string_or : J.Value → ByteString → ByteString
  string_or v old = if is_string v then text v else old

  abbrev pub int_or : J.Value → ℤ → ℤ
  int_or v old = if is_number v then int v else old

  unfoldable pub load_server : J.Value → Config → Option Config
  load_server server c = do
    ip ← index server (codes "ip")
    port ← index server (codes "port")
    some (record c { ip = string_or ip c.ip; port = int_or port c.port })

  unfoldable pub load_leveldb : J.Value → Config → Option Config
  load_leveldb leveldb c = do
    cache_size ← index leveldb (codes "cache_size")
    block_size ← index leveldb (codes "block_size")
    write_buffer_size ← index leveldb (codes "write_buffer_size")
    compression ← index leveldb (codes "compression")
    some (record c {
      cache_size = int_or cache_size c.cache_size;
      block_size = int_or block_size c.block_size;
      write_buffer_size = int_or write_buffer_size c.write_buffer_size;
      compression = string_or compression c.compression;
    })

  unfoldable pub load_slaveof : J.Value → Config → Option Config
  load_slaveof slaveof c = do
    port ← index slaveof (codes "port")
    ip ← index slaveof (codes "ip")
    some
        (record c { master_port = int_or port c.master_port; master_ip = string_or ip c.master_ip })

  -- What a member says, if it is an object.
  abbrev pub if_object : J.Value → (J.Value → Config → Option Config) → Config → Option Config
  if_object v f c = if is_object v then f v c else some c

  unfoldable pub load_replication : J.Value → Config → Option Config
  unfolding load_slaveof
  load_replication replication c = do
    slaveof ← index replication (codes "slaveof")
    if_object slaveof load_slaveof c

  unfoldable pub load_value : J.Value → Option Config
  unfolding load_server load_leveldb load_replication
  load_value js = do
    data_dir ← index js (codes "data_dir")
    meta_dir ← index js (codes "meta_dir")
    server ← index js (codes "server")
    c1 ← if_object server load_server (record new_config {
      data_dir = string_or data_dir new_config.data_dir;
      meta_dir = string_or meta_dir new_config.meta_dir;
    })
    leveldb ← index js (codes "leveldb")
    c2 ← if_object leveldb load_leveldb c1
    replication ← index js (codes "replication")
    if_object replication load_replication c2

  -- `Config::load`, with the bytes of the file.
  unfoldable pub load : ByteString → Option Config
  unfolding load_value
  load file = do js ← J.parse file; load_value js
