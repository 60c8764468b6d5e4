-- ===== src/BackendSync.antt =====
-- `BackendSync::Client` of ssdb/src/backend_sync.h and ssdb/src/backend_sync.cpp: the master's side of one
-- replica. A method returns the client and the messages that it sends, each a list of strings. Other
-- threads write meanwhile: `view n` is the master's store as access number `n` of a call finds it.
pub mod State
pub mod Sent
pub mod Next
use Prim.Native.Nat.{Ordering}
use model_lib.Prelude.{
  ℕ, zero, suc, ◌+◌, ◌-◌, ◌%◌, ◌^◌, Option, none, some, Bool, true, false, not, ◌&&◌, ◌||◌, List,
  [], ◌∷◌, ◌++◌, ◌==◌, ltb, leb, if◌then◌else◌, get_or, length,
}
use model_lib.Prelude.Int.{ℤ, pos, negsuc}
use model_lib.Prelude.Text.{ByteString, codes, str_eq}
use model_lib.Util.Bytes.{compare_bytes}
use model_lib.Util.Number.{str_to_uint64}
use model_lib.Store.Const.DataType
use model_lib.Store.Const.BinlogType
use model_lib.Store.Const.BinlogCommand
use model_lib.Store.Binlog
use model_lib.Store.Binlog.{Binlog, make, repr, seq}
use model_lib.Store.LevelDb.{LevelDb}
use model_lib.Store.Cursor.{Cursors}
use model_lib.Store.Queue.{Queue}
use model_lib.Store.Find.{Find, one, absent, invalid, find_last, find_next}
use model_lib.Store.Iterator
use model_lib.Store.Iterator.{Iterator, iterator}
use model_lib.Store.Impl.{raw_get}
use model_lib.BackendSync.State.{Status, is_copy, is_out_of_sync}

pub record Client (L : LevelDb) : Type 0 where
  pub status : Status
  pub last_seq : ℕ
  pub last_noop_seq : ℕ
  pub last_key : ByteString
  pub is_mirror : Bool
  pub iter : Option (Iterator L)

-- The strings of one message, and the messages of one call.
abbrev pub Message : Type 0
Message = List ByteString

-- The result of a call, the client and the messages. `broken` uses a record that was never loaded.
pub data Outcome (L : LevelDb) : Type 0 where
  returned : ℕ → Client L → List Message → Outcome L
  broken : Outcome L
  out_of_fuel : Outcome L

abbrev pub is_empty : ByteString → Bool
is_empty [] = true
is_empty (c ∷ s) = false

-- `key.data()[0] > DataType::MAX_PREFIX`. `char` is signed: a first byte from 128 on is negative.
abbrev pub past_types : ByteString → Bool
past_types key = ltb DataType.max_prefix (get_or key 0 0) && ltb (get_or key 0 0) 128

-- `x > y` of `Bytes`.
abbrev pub after : ByteString → ByteString → Bool
after x y = elim (compare_bytes x y) [ Ordering.gt ↦ true | _ ↦ false ]

-- What the switch of `sync` sends for a record: the value that the store has when it is read.
unfoldable pub log_message : Binlog → ℤ × ByteString → List Message
log_message log (ret, val) =
    if Binlog.cmd log == BinlogCommand.kset
    then (elim ret [ pos n ↦ if n == 0 then [] else (repr log ∷ val ∷ []) ∷ [] | negsuc n ↦ [] ])
    else if Binlog.cmd log == BinlogCommand.kdel
    then (repr log ∷ []) ∷ []
    else []

module _ {L : LevelDb} where
  -- The constructor. `iter` is not initialised in the source: `garbage` is the pointer that is there, NULL
  -- or one to an iterator. Any other is undefined behaviour as soon as `sync` or `copy` tests it.
  abbrev pub new_client : Option (Iterator L) → Client L
  new_client garbage = record {
    status = Status.init;
    last_seq = 0;
    last_noop_seq = 0;
    last_key = [];
    is_mirror = false;
    iter = garbage;
  }

  unfoldable pub reset : Client L → Client L × List Message
  reset c = (
    record c { status = Status.copy; last_seq = 0; last_key = [] },
    (repr (make 0 BinlogType.copy BinlogCommand.begin []) ∷ codes "copy_begin" ∷ []) ∷ [],
  )

  -- `init(req)`: the position that the replica has, and whether it is a mirror.
  unfoldable pub init : Client L → List ByteString → Client L × List Message
  unfolding reset
  init c req =
      let last_seq = if ltb 1 (length req) then (str_to_uint64 0 (get_or req 1 [])).0 else 0 in
      let last_key = if ltb 2 (length req) then get_or req 2 [] else c.last_key in
      let is_mirror =
        ltb 3 (length req) && str_eq (get_or req 3 []) (codes "mirror") || c.is_mirror in
      let c' = record c { last_seq = last_seq; last_key = last_key; is_mirror = is_mirror } in
      if is_empty last_key && last_seq == 0 then reset c' else (c', [])

  unfoldable pub noop : Client L → Client L × List Message
  noop c =
      if is_copy c.status && is_empty c.last_key
      then (c, (repr (make 0 BinlogType.noop BinlogCommand.none []) ∷ codes "noop" ∷ []) ∷ [])
      else (
        record c { last_noop_seq = c.last_seq },
        (repr (make c.last_seq BinlogType.noop BinlogCommand.none []) ∷ codes "noop" ∷ []) ∷ [],
      )

  unfoldable pub out_of_sync : Client L → Client L × List Message
  out_of_sync c = (
    record c { status = Status.out_of_sync },
    (repr (make c.last_seq BinlogType.ctrl BinlogCommand.none (codes "OUT_OF_SYNC")) ∷ []) ∷ [],
  )

  -- `copy_end`.
  unfoldable pub end_copy : Client L → List Message → Outcome L
  end_copy c sent =
      returned 1 (record c { status = Status.sync; iter = none })
        (sent
          ++ (repr (make c.last_seq BinlogType.copy BinlogCommand.end []) ∷ codes "copy_end" ∷ [])
            ∷ [])

  -- The number of the record that is looked for.
  abbrev pub expect_seq : Client L → ℕ
  expect_seq c = (c.last_seq + 1) % 2 ^ 64

  abbrev pub returns : ℕ → Client L × List Message → Outcome L
  returns ret (c, sent) = returned ret c sent

  module _ (C : Cursors L) where
    unfoldable pub find_log : Client L → Queue L → Queue L → Find
    find_log c q q' =
        if is_copy c.status && c.last_seq == 0
        then find_last C q
        else find_next C q q' (expect_seq c)

    -- A record that the client goes on with: a mirror's own record is passed over, with a noop for
    -- every thousand; any other is sent.
    unfoldable pub use_log : (Client L → Outcome L) → Client L → Binlog → Queue L → Outcome L
    unfolding log_message noop raw_get
    use_log again c log q =
        let skipped = again c in
        if Binlog.type log == BinlogType.mirror && c.is_mirror
        then (if leb 1000 ((c.last_seq + 2 ^ 64 - c.last_noop_seq) % 2 ^ 64)
            then returns 1 (noop c)
            else skipped)
        else returned 0 c (log_message log (raw_get q (Binlog.key log) []))

    -- The rest of a round of the loop, with the record that was found.
    unfoldable pub at_log : (Client L → Outcome L) → Client L → Binlog → Queue L → Outcome L
    unfolding use_log out_of_sync
    at_log again c log q =
        let dropped = again (record c { last_seq = seq log; iter = none }) in
        if is_copy c.status && after (Binlog.key log) c.last_key
        then dropped
        else if not (c.last_seq == 0) && not (seq log == expect_seq c)
        then returns 1 (out_of_sync c)
        else use_log again (record c { last_seq = seq log }) log q

    -- A round of the loop, behind its search.
    abbrev pub with_found :
        (Binlog → Client L → Outcome L) → Client L → Option Binlog → Queue L → Find → Outcome L
    with_found again c log q absent = returned 0 c []
    with_found again c log q (one found) = at_log (again found) c found q
    with_found again c none q invalid = broken
    with_found again c (some old) q invalid = at_log (again old) c old q

    -- `while(1)`. `log` is the record of the round before: one that cannot be loaded leaves it.
    unfoldable pub sync_loop : ℕ → ℕ → (ℕ → Queue L) → Option Binlog → Client L → Outcome L
    sync_loop zero i view log c = out_of_fuel
    sync_loop (suc fuel) i view log c =
        with_found (λ log'. sync_loop fuel (i + 3) view (some log')) c log (view (i + 2))
          (find_log c (view i) (view (i + 1)))

    unfoldable pub sync : ℕ → (ℕ → Queue L) → Client L → Outcome L
    unfolding sync_loop find_log at_log
    sync fuel view c = sync_loop fuel 0 view none c

    -- The loop, with the rounds that are left of 1000, the entries sent, and their messages.
    unfoldable pub copy_loop : ℕ → Client L → Iterator L → ℕ → List Message → Outcome L
    unfolding end_copy
    copy_loop zero c t ret sent = returned ret (record c { iter = some t }) sent
    copy_loop (suc rounds) c t ret sent =
        let (ok, t') = Iterator.next C t in
        let key = Iterator.key t' in
        let message =
          repr (make c.last_seq BinlogType.copy BinlogCommand.kset key) ∷ Iterator.val t' ∷ [] in
        let is_kv = get_or key 0 0 == DataType.kv in
        let passed = copy_loop rounds c t' ret sent in
        let went_on =
          copy_loop rounds (record c { last_key = key }) t' (if is_kv then ret + 1 else ret)
            (if is_kv then sent ++ message ∷ [] else sent) in
        if not ok
        then end_copy c sent
        else if is_empty key
        then passed
        else if past_types key
        then end_copy c sent
        else went_on

    -- A client with no iterator starts behind the last key that it copied.
    abbrev pub copy_from : Client L → Queue L → Option (Iterator L) → Iterator L
    copy_from c q (some t) = t
    copy_from c q none =
        iterator C q (if is_empty c.last_key then DataType.min_prefix ∷ [] else c.last_key) []
          (2 ^ 64 - 1)

    unfoldable pub copy : Queue L → Client L → Outcome L
    unfolding copy_loop
    copy q c = copy_loop 1000 c (copy_from c q c.iter) 0 []

    -- The messages of `sync` stand before those of `copy`.
    abbrev pub sent_before : List Message → Outcome L → Outcome L
    sent_before sent (returned ret c more) = returned ret c (sent ++ more)
    sent_before sent broken = broken
    sent_before sent out_of_fuel = out_of_fuel

    abbrev pub and_copy : Queue L → Outcome L → Outcome L
    and_copy q (returned ret c sent) =
        if is_copy c.status then sent_before sent (copy q c) else returned ret c sent
    and_copy q broken = broken
    and_copy q out_of_fuel = out_of_fuel

    -- One round of the thread. The copy reads the store at the end of `view`'s call.
    unfoldable pub round : ℕ → (ℕ → Queue L) → Queue L → Client L → Outcome L
    unfolding sync copy
    round fuel view q c =
        if is_out_of_sync c.status then returned 0 c [] else and_copy q (sync fuel view c)
