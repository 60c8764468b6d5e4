-- ===== src/Replication/Wire.antt =====
-- The messages of a client reach the slave over the wire: `Slave::onRead` of ssdb/src/slave.cpp.
use model_lib.Prelude.{ℕ, ◌<◌, ◌≡◌, refl, ap, ◌∙◌, some, List, [], ◌∷◌, ◌++◌, length}
use model_lib.Prelude.Int.{pos}
use model_lib.Prelude.Text.{ByteString}
use model_lib.Util.Buffer.{Buffer, Realloc, content, append}
use model_lib.Util.Buffer.Space.{IsValid}
use model_lib.Net.Receive.{Input, on_read}
use model_lib.Net.Receive.Whole.{AreSendable, encode_all, proc_all, on_read-encode_all}
use model_lib.Store.LevelDb.{LevelDb}
use model_lib.BackendSync.{Message}
use model_lib.Slave
use model_lib.Slave.{Slave}
use model_lib.Replication.{deliver}

module _ {M : LevelDb} where
  deliver_all : (s : Slave M) (ms : List Message) → proc_all Slave.proc s ms ≡ deliver s ms
  unfolding deliver
  deliver_all s [] = refl
  deliver_all s (m ∷ ms) = deliver_all (Slave.proc s m) ms

  -- The bytes that complete the packets of messages, of which any part may stand in the buffer before,
  -- make the slave take every message, whole and in order, and leave the buffer without data. Each
  -- message has a string and at most MAX_PACKET_SIZE bytes as a packet, there is memory for the bytes,
  -- and the loop has one round for each message and one more.
  pub on_read-deliver :
      (R : Realloc) (score : ByteString → ByteString) (ms : List Message) (fuel n : ℕ) (s : Slave M)
      (input : Input) (b : Buffer) (bytes : ByteString)
      → length ms < fuel
      → AreSendable ms
      → IsValid input.buffer
      → content input.buffer ++ bytes ≡ encode_all ms
      → append R input.buffer bytes ≡ some (pos n, b)
      → (left : Input) × (on_read R score Slave.proc fuel s input bytes
          ≡ some (deliver s ms, some left))
        × IsValid left.buffer
        × (content left.buffer ≡ [])
  on_read-deliver R score ms fuel n s input b bytes h ok v e a =
      let (left, r, w, d) =
        on_read-encode_all R score Slave.proc ms fuel n s input b bytes h ok v e a in
      (left, r ∙ ap (λ t. some (t, some left)) (deliver_all s ms), w, d)
