-- ===== src/Util/Buffer.antt =====
-- `Buffer` of ssdb/src/util/bytes.h and ssdb/src/util/bytes.cpp: an allocated block, in which the
-- `size` bytes from `offset` (`data_ - buf`) are data. `realloc` of the C library is a parameter.
pub mod Block
pub mod Space
pub mod Append
pub mod Memory
pub mod Decr
pub mod Record
use model_lib.Prelude.{
  ℕ, zero, suc, ◌+◌, ◌-◌, ◌*◌, ◌/◌, ◌%◌, ◌^◌, ◌≤◌, ◌<◌, ◌≡◌, Option, none, some, Bool, List, [],
  ◌∷◌, ◌++◌, ◌||◌, ◌==◌, ltb, leb, if◌then◌else◌, take, drop, length,
}
use model_lib.Prelude.Int.{ℤ, pos, negsuc}
use model_lib.Prelude.Text.{ByteString}
use model_lib.Util.Number.{decimal}

pub record Buffer : Type 0 where
  pub buf : ByteString
  pub offset : ℕ
  pub size : ℕ
  pub total : ℕ

-- A block of another size with the bytes of the old one, as far as both reach, or NULL. No block
-- is larger than PTRDIFF_MAX.
pub record Realloc : Type 0 where
  pub realloc : ByteString → ℕ → Option ByteString
  pub realloc_keeps :
      (block block' : ByteString) (n : ℕ)
      → realloc block n ≡ some block'
      → length block ≤ n
      → (length block' ≡ n) × (take (length block) block' ≡ block) × (n < 2 ^ 63)

-- The data of the buffer.
abbrev pub content : Buffer → ByteString
content b = take b.size (drop b.offset b.buf)

-- `memcpy(block + i, s, n)` for the `n` bytes of `s`.
abbrev pub copy_to : ByteString → ℕ → ByteString → ByteString
copy_to block i s = take i block ++ (s ++ drop (i + length s) block)

-- An `int` passed as a `size_t`: the sign is extended.
abbrev pub size_of_int : ℕ → ℕ
size_of_int n = if ltb n (2 ^ 31) then n else (n + (2 ^ 64 - 2 ^ 32)) % 2 ^ 64

unfoldable pub incr : Buffer → ℕ → Buffer
incr b num = record b { size = b.size + num }

-- The callers pass at most `size`.
unfoldable pub decr : Buffer → ℕ → Buffer
decr b num = record b { size = b.size - num; offset = b.offset + num }

unfoldable pub nice : Buffer → Buffer
nice b =
    let moved = if ltb 0 b.size then copy_to b.buf 0 (content b) else b.buf in
    if b.size == 0 || ltb (b.total / 2) b.offset then record b { buf = moved; offset = 0 } else b

-- The size that `grow` asks for.
unfoldable pub next_total : ℕ → ℕ
next_total total =
    if ltb total (8 * 1024)
    then 8 * 1024
    else if ltb total (512 * 1024)
    then 8 * total
    else 2 * total

-- How the loop ends that makes room: with the room, with -1, or (never) with the fuel.
pub data Room : Type 0 where
  room : Buffer → Room
  no_memory : Buffer → Room
  out_of_fuel : Room

module _ (R : Realloc) where
  open R use {realloc}

  abbrev pub resized : Buffer → ℕ → Option ByteString → Option Buffer
  resized b n none = none
  resized b n (some block) = some (record b { buf = block; total = n })

  -- `none` is -1, where the buffer is as it was.
  unfoldable pub grow : Buffer → Option Buffer
  unfolding next_total
  grow b = let n = next_total b.total in resized b n (realloc b.buf (size_of_int n))

  -- `while(num > this->space())`, where the space is `total - offset - size`.
  unfoldable pub make_room : ℕ → Buffer → ℕ → Room
  unfolding grow
  make_room zero b num = out_of_fuel
  make_room (suc fuel) b num =
      if leb (b.offset + b.size + num) b.total
      then room b
      else elim (grow b) [ none ↦ no_memory b | some b' ↦ make_room fuel b' num ]

  -- The bytes behind the data.
  abbrev pub write_slot : Room → ByteString → Option (ℤ × Buffer)
  write_slot (room b) s = some (
    pos (length s),
    record b { buf = copy_to b.buf (b.offset + b.size) s; size = b.size + length s },
  )
  write_slot (no_memory b) s = some (negsuc 0, b)
  write_slot out_of_fuel s = none

  -- The result and the buffer; `none` is a loop that runs out of fuel.
  unfoldable pub append : Buffer → ByteString → Option (ℤ × Buffer)
  unfolding make_room
  append b s = write_slot (make_room (suc (length s)) b (length s)) s

  -- 16 bytes are room for the length and its line end.
  unfoldable pub append_record : Buffer → ByteString → Option (ℤ × Buffer)
  unfolding make_room
  append_record b s =
      let num = 16 + length s + 1 in
      write_slot (make_room (suc num) b num) (decimal (length s) ++ (10 ∷ (s ++ 10 ∷ [])))
