-- ===== src/Tests/Config.antt =====
-- Tests of the configuration: a small JSON library, and a document.
use model_lib.Prelude.{◌≡◌, ◌≢◌, refl, Option, none, some, Bool, true, false, [], if◌then◌else◌}
use model_lib.Prelude.Int.{ℤ, pos, negsuc}
use model_lib.Prelude.Text.{ByteString, codes, str_eq}
use model_lib.Util.Config.{Json, load_value}

mutual
  data Value : Type 0 where
    null : Value
    text : ByteString → Value
    number : ℤ → Value
    object : Members → Value

  data Members : Type 0 where
    no_more : Members
    member : ByteString → Value → Members → Members

abbrev find : Members → ByteString → Value
find no_more key = null
find (member k v more) key = let rest = find more key in if str_eq k key then v else rest

abbrev index : Value → ByteString → Option Value
index null key = some null
index (text s) key = none
index (number z) key = none
index (object m) key = some (find m key)

abbrev is_object : Value → Bool
is_object (object m) = true
is_object _ = false

abbrev is_string : Value → Bool
is_string (text s) = true
is_string _ = false

abbrev is_number : Value → Bool
is_number (number z) = true
is_number _ = false

abbrev text_of : Value → ByteString
text_of (text s) = s
text_of _ = []

abbrev int_of : Value → ℤ
int_of (number z) = z
int_of _ = pos 0

index_object : (v : Value) (key : ByteString) → is_object v ≡ true → index v key ≢ none
index_object (object m) key h e = cc e
index_object null key h e = cc h
index_object (text s) key h e = cc h
index_object (number z) key h e = cc h

abbrev documents : Json
documents = record {
  Value = Value;
  parse = λ file. none;
  index = index;
  is_object = is_object;
  is_string = is_string;
  is_number = is_number;
  text = text_of;
  int = int_of;
  index_object = index_object;
}

-- {"data_dir": 7, "server": {"port": 9999}}
abbrev sample : Value
sample = object (
    member (codes "data_dir") (number (pos 7)) (
      member (codes "server") (object (member (codes "port") (number (pos 9999)) no_more)) no_more))

sample_loads :
    load_value documents sample
    ≡ some (record {
      data_dir = codes "ssdb/data";
      meta_dir = codes "ssdb/meta";
      ip = codes "127.0.0.1";
      port = pos 9999;
      cache_size = pos 500;
      block_size = pos 32;
      write_buffer_size = pos 64;
      compression = codes "yes";
      master_port = negsuc 0;
      master_ip = [];
    })
unfolding load_value str_eq
sample_loads = refl
