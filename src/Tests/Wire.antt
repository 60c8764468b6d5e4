-- ===== src/Tests/Wire.antt =====
-- Tests of packets and of the link of a slave.
use model_lib.Prelude.{ℕ, ◌+◌, ◌≡◌, refl, none, some, List, [], ◌∷◌, ◌++◌, arith, replicate, length}
use model_lib.Prelude.Int.{pos}
use model_lib.Prelude.Text.{ByteString, codes}
use model_lib.Util.Number.{decimal}
use model_lib.Util.Buffer.{Buffer, content, copy_to, append}
use model_lib.Util.Buffer.Space.{IsValid}
use model_lib.Store.Const.BinlogType
use model_lib.Store.Const.BinlogCommand
use model_lib.Store.Cursor.Table.{table}
use model_lib.Store.Queue.{Queue}
use model_lib.BackendSync.{Message}
use model_lib.Slave
use model_lib.Slave.{Slave, status_sync}
use model_lib.Net.Packet.{encode_packet, encode_record}
use model_lib.Net.Receive.{Input, on_read, send_all}
use model_lib.Net.Receive.Send.{send_all-encode_all}
use model_lib.Net.Receive.Whole.{AreSendable, encode_all}
use model_lib.Replication.{deliver}
use model_lib.Replication.Wire.{on_read-deliver}
use model_lib.Tests.Buffer.{allocator, padded-IsGenerous}

abbrev empty : Queue table
empty = record { db = []; capacity = 20000000; last_seq = 0; tran_seq = 0; batch = [] }

abbrev replica : Slave table
replica = record {
  status = status_sync;
  copy_count = 0;
  sync_count = 0;
  last_seq = 0;
  last_key = [];
  id = codes "h|1";
  ssdb = empty;
  meta = empty;
}

-- The record of a deletion of the key "a", with number 1.
abbrev deletion : ByteString
deletion = 1 ∷ 0 ∷ 0 ∷ 0 ∷ 0 ∷ 0 ∷ 0 ∷ 0 ∷ BinlogType.sync ∷ BinlogCommand.kdel ∷ codes "ka"

abbrev messages : List Message
messages = (deletion ∷ []) ∷ (deletion ∷ codes "v" ∷ []) ∷ []

-- Two bytes of the first packet have come before.
abbrev half : Input
half = record {
  buffer = record { buf = codes "12" ++ replicate 62 0; offset = 0; size = 2; total = 64 };
  redis = record { req_desc = none; recv_string = [] };
}

abbrev others : ByteString
others =
    10
    ∷ (deletion
        ++ 10
          ∷ 10
          ∷ (codes "12" ++ 10 ∷ (deletion ++ 10 ∷ (codes "1" ++ 10 ∷ (codes "v" ++ 10 ∷ 10 ∷ [])))))

abbrev filled : Buffer
filled = record {
  buf = copy_to (codes "12" ++ replicate 62 0) 2 others;
  offset = 0;
  size = 2 + length others;
  total = 64;
}

half-IsValid : IsValid (half.buffer)
half-IsValid = record { block = refl; inside = omega arith; fits = omega arith }

messages-AreSendable : AreSendable messages
unfolding decimal
messages-AreSendable = (omega arith, (omega arith, tt))

others_complete : content (half.buffer) ++ others ≡ encode_all messages
unfolding encode_all encode_packet encode_record decimal
others_complete = refl

append-others : append allocator (half.buffer) others ≡ some (pos (length others), filled)
unfolding append
append-others = refl

on_read-deliver_example :
    (left : Input) × (on_read allocator (λ s. s) Slave.proc 3 replica half others
      ≡ some (deliver replica messages, some left))
    × IsValid (left.buffer)
    × (content (left.buffer) ≡ [])
on_read-deliver_example =
    on_read-deliver allocator (λ s. s) messages 3 (length others) replica half filled others
      (omega arith) messages-AreSendable half-IsValid others_complete append-others

block : ℕ → ByteString
block i = replicate 40 0

send_all-encode_all_example : send_all allocator block messages ≡ some (encode_all messages)
unfolding block
send_all-encode_all_example =
    send_all-encode_all allocator padded-IsGenerous block messages (λ i. omega arith)
      messages-AreSendable
