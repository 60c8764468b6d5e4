-- ===== src/Store/Keys/RoundTrip.antt =====
-- What is encoded is decoded, keys of different kinds differ, and the keys of the log are ordered
-- as their sequence numbers.
use Prim.Native.Nat.{compare, Ordering}
use mathlib.Core.Option.{some-injective}
use model_lib.Prelude.{
  ℕ, zero, suc, ◌+◌, ◌/◌, ◌%◌, ◌^◌, ◌≤◌, ◌<◌, ◌≡◌, ◌≢◌, refl, ap, ◌∙◌, sym, some, ◌∷◌, ◌++◌, arith,
  length, ltb, length-append, take-length_append, drop-length_append, false, Bool-cases, inl, inr,
  ◌⊎◌,
}
use model_lib.Prelude.Text.{ByteString, str_eq, str_eq_sound}
use model_lib.Util.Endian.{big_endian64, le_bytes}
use model_lib.Util.Endian.Reverse.{
  le_bytes-big_endian64, le_value-le_bytes, big_endian64-big_endian64, big_endian64-lt,
}
use model_lib.Util.Bytes.{compare_bytes}
use model_lib.Util.Bytes.Order.{lex, compare_bytes-lex, lex-be_bytes}
use model_lib.Util.Decoder.{skip, read_8_data}
use model_lib.Store.Keys.{
  encode_kv_key, decode_kv_key, encode_hash_key, decode_hash_key, encode_seq_key, decode_seq_key,
}

pub decode_kv_key-encode : (key : ByteString) → decode_kv_key (encode_kv_key key) ≡ some key
unfolding decode_kv_key encode_kv_key
decode_kv_key-encode key = ground arith

skip_one : (c : ℕ) (s : ByteString) → skip 1 (c ∷ s) ≡ some s
unfolding skip
skip_one c s = ground arith

read_8_data-whole : (a t : ByteString) → read_8_data (length a ∷ (a ++ t)) ≡ some (a, t)
unfolding read_8_data
read_8_data-whole a t =
    let room : ltb (length a + length t) (length a) ≡ false = ground arith in
    rw (length-append, room, take-length_append, drop-length_append)

-- A hash key is decoded to its name and key, if the name has at most 255 bytes.
pub decode_hash_key-encode :
    (name key : ByteString)
    → length name ≤ 255
    → decode_hash_key (encode_hash_key name key) ≡ some (name, key)
unfolding decode_hash_key encode_hash_key
decode_hash_key-encode name key h =
    let whole : length name % 256 ≡ length name = omega arith in
    rw (whole, skip_one, read_8_data-whole name (b'=' ∷ key), skip_one)

-- Different fields of hashes with names of at most 255 bytes have different keys.
pub str_eq-hash_ne :
    (name key name2 key2 : ByteString)
    → length name ≤ 255
    → length name2 ≤ 255
    → (name ≢ name2) ⊎ (key ≢ key2)
    → str_eq (encode_hash_key name key) (encode_hash_key name2 key2) ≡ false
str_eq-hash_ne name key name2 key2 h k other =
    elim (Bool-cases (str_eq (encode_hash_key name key) (encode_hash_key name2 key2))) [
      | inl e ↦
          let same : (name, key) ≡ (name2, key2) = some-injective _ _ (
            sym (decode_hash_key-encode name key h)
            ∙ ap decode_hash_key (str_eq_sound _ _ e)
            ∙ decode_hash_key-encode name2 key2 k) in
          elim other [
            | inl ne ↦ absurd (ne (ap (λ p. p.0) same))
            | inr ne ↦ absurd (ne (ap (λ p. p.1) same))
          ]
      | inr e ↦ e
    ]

length-le_bytes : (n v : ℕ) → length (le_bytes n v) ≡ n
unfolding le_bytes
length-le_bytes zero v = refl
length-le_bytes (suc n) v = ap suc (length-le_bytes n (v / 256))

-- The sequence number, below 2 ^ 64, is read back from the key of its log record.
pub decode_seq_key-encode : (seq : ℕ) → seq < 2 ^ 64 → decode_seq_key (encode_seq_key seq) ≡ seq
unfolding decode_seq_key encode_seq_key
decode_seq_key-encode seq h = rw (
  length-le_bytes 8 (big_endian64 seq),
  le_value-le_bytes (big_endian64 seq) (big_endian64-lt seq h),
  big_endian64-big_endian64 seq h,
)

-- The keys of the log are ordered as their sequence numbers.
pub compare-encode_seq_key :
    (a b : ℕ)
    → a < 2 ^ 64
    → b < 2 ^ 64
    → compare_bytes (encode_seq_key a) (encode_seq_key b) ≡ compare a b
unfolding encode_seq_key
compare-encode_seq_key a b h k =
    rw (compare_bytes-lex _ _, le_bytes-big_endian64 a h, le_bytes-big_endian64 b k)
      (unfold lex in lex-be_bytes 8 a b h k)

-- A key of the log stands before every key whose first byte is not that of the log.
pub encode_seq_key-lt :
    (seq c : ℕ) (s : ByteString) → 1 < c → compare_bytes (encode_seq_key seq) (c ∷ s) ≡ Ordering.lt
unfolding encode_seq_key
encode_seq_key-lt seq c s h = rw (compare_bytes-lex _ _) (unfold lex in ground arith)

-- Different sequence numbers have different keys.
pub encode_seq_key-injective :
    (a b : ℕ) → a < 2 ^ 64 → b < 2 ^ 64 → encode_seq_key a ≡ encode_seq_key b → a ≡ b
encode_seq_key-injective a b h k e =
    sym (decode_seq_key-encode a h) ∙ ap decode_seq_key e ∙ decode_seq_key-encode b k

pub encode_seq_key-ne-kv :
    (n : ℕ) (key : ByteString) → str_eq (encode_seq_key n) (encode_kv_key key) ≡ false
unfolding encode_seq_key encode_kv_key str_eq
encode_seq_key-ne-kv n key = refl

pub str_eq-kv_seq :
    (key : ByteString) (n : ℕ) → str_eq (encode_kv_key key) (encode_seq_key n) ≡ false
unfolding encode_seq_key encode_kv_key str_eq
str_eq-kv_seq key n = refl

pub str_eq-seq_ne :
    (a b : ℕ)
    → a < 2 ^ 64
    → b < 2 ^ 64
    → a ≢ b
    → str_eq (encode_seq_key a) (encode_seq_key b) ≡ false
str_eq-seq_ne a b h k ne = elim (Bool-cases (str_eq (encode_seq_key a) (encode_seq_key b))) [
  | inl e ↦ absurd (ne (encode_seq_key-injective a b h k (str_eq_sound _ _ e)))
  | inr e ↦ e
]
