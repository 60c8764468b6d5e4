-- ===== src/Net/ProcMap.antt =====
-- `Command` and `ProcMap` of ssdb/src/net/proc.h and ssdb/src/net/proc.cpp. A hash map is the list
-- of its commands, found by name; `proc_t` works on a server state `S`, which stands for what the
-- pointers to the server and the link reach. The times and the count of calls are left out.
pub mod Lookup
use Prim.Native.Nat.{bit_or, Ordering}
use model_lib.Prelude.{ℕ, Option, none, some, Bool, true, false, List, [], ◌∷◌, ◌==◌, if◌then◌else◌}
use model_lib.Prelude.Int.{ℤ}
use model_lib.Prelude.Text.{ByteString, codes}
use model_lib.Util.Bytes.{compare_bytes}
use model_lib.Net.Resp.{Response}

-- The server state, the request and the strings of the reply so far.
abbrev pub Proc : Type 0 → Type 0
Proc S = S → List ByteString → Response → ℤ × S × Response

abbrev pub flag_read : ℕ
flag_read = 1

abbrev pub flag_write : ℕ
flag_write = 2

abbrev pub flag_backend : ℕ
flag_backend = 4

abbrev pub flag_thread : ℕ
flag_thread = 8

pub record Command (S : Type 0) : Type 0 where
  pub name : ByteString
  pub flags : ℕ
  pub proc : Proc S

-- `BytesEqual`.
unfoldable pub bytes_equal : ByteString → ByteString → Bool
bytes_equal s1 s2 = elim (compare_bytes s1 s2) [ Ordering.eq ↦ true | _ ↦ false ]

-- One letter of `sflags`.
unfoldable pub add_flag : ℕ → ℕ → ℕ
add_flag flags p =
    if p == b'r'
    then bit_or flags flag_read
    else if p == b'w'
    then bit_or (bit_or flags flag_write) flag_thread
    else if p == b'b'
    then bit_or flags flag_backend
    else if p == b't'
    then bit_or flags flag_thread
    else flags

unfoldable pub read_flags : ℕ → ByteString → ℕ
read_flags flags [] = flags
read_flags flags (p ∷ sflags) = read_flags (add_flag flags p) sflags

module _ {S : Type 0} where
  unfoldable pub get_proc : List (Command S) → ByteString → Option (Command S)
  get_proc [] str = none
  get_proc (c ∷ map) str = if bytes_equal c.name str then some c else get_proc map str

  -- The map behind the assignments through the pointer that `get_proc` found for the name `c`.
  unfoldable pub assign : List (Command S) → ByteString → ℕ → Proc S → List (Command S)
  assign [] c flags proc = []
  assign (d ∷ map) c flags proc =
      if bytes_equal d.name c
      then record d { flags = flags; proc = proc } ∷ map
      else d ∷ assign map c flags proc

  unfoldable pub set_proc : List (Command S) → ByteString → ByteString → Proc S → List (Command S)
  unfolding get_proc assign
  set_proc map c sflags proc =
      let inserted = record { name = c; flags = 0; proc = proc } ∷ map in
      let found : List (Command S) = elim (get_proc map c) [ none ↦ inserted | some d ↦ map ] in
      assign found c (read_flags 0 sflags) proc

  -- The overload without flags.
  unfoldable pub set_proc_thread : List (Command S) → ByteString → Proc S → List (Command S)
  unfolding set_proc
  set_proc_thread map c proc = set_proc map c (codes "t") proc
