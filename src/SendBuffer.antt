-- ===== src/SendBuffer.antt =====
-- net/send_msg_buffer.{h,cpp}: messages are gathered in a buffer and sent as one NET_COMPRESS
-- envelope, compressed where that makes it smaller. Each method holds the mutex, so it is one step.
pub mod Memory
pub mod Adding
pub mod Sealing
use ran_online.Base.{
  ℕ, zero, suc, ◌+◌, ◌-◌, ◌%◌, ◌^◌, ◌≤◌, ◌<◌, ◌≡◌, List, [], ◌∷◌, ◌++◌, Option, some, none, Bool,
}
use ran_online.Base.{length, take, drop, replicate, if◌then◌else◌, ltb, ◌==◌}
use ran_online.MinLzo.{Lzo, Code, success, error, input_data_error, internal_error}
use ran_online.MinLzo.{can_not_compress, lzo_compress}
use ran_online.Packet.{write_le32, net_msg_compress}

abbrev pub net_data_bufsize : ℕ
net_data_bufsize = 2048

abbrev pub net_data_msg_bufsize : ℕ
net_data_msg_bufsize = 4096

abbrev pub compress_packet_size : ℕ
compress_packet_size = 1000

-- sizeof(NET_COMPRESS)
abbrev pub net_compress_size : ℕ
net_compress_size = 12

-- The bytes of a NET_COMPRESS header: dwSize, nType, bCompress, pad[3].
unfoldable pub net_compress : ℕ → ℕ → List ℕ
net_compress size compressed =
    write_le32 size ++ (write_le32 net_msg_compress ++ (compressed ∷ 0 ∷ 0 ∷ 0 ∷ []))

-- memcpy of `bytes` to `buf + offset`. The buffer keeps its length exactly where the bytes fit.
unfoldable pub write_at : List ℕ → ℕ → List ℕ → List ℕ
write_at buf offset bytes = take offset buf ++ (bytes ++ drop (offset + length bytes) buf)

pub data AddResult : Type 0 where
  buffer_send buffer_added buffer_send_add buffer_error : AddResult

pub record SendMsgBuffer : Type 0 where
  pub pos : ℕ
  pub count : ℕ
  pub buffer : List ℕ
  pub send_buffer : List ℕ

unfoldable pub new_send_msg_buffer : SendMsgBuffer
new_send_msg_buffer = record {
  pos = 0;
  count = 0;
  buffer = replicate net_data_msg_bufsize 0;
  send_buffer = replicate net_data_msg_bufsize 0;
}

unfoldable pub reset : SendMsgBuffer → SendMsgBuffer
reset b = record b { pos = 0; count = 0 }

-- `none` is a null pointer. `dw_size` is how many bytes of the message are meant.
unfoldable pub add_msg : Option (List ℕ) → ℕ → SendMsgBuffer → SendMsgBuffer × AddResult
add_msg none dw_size b = (b, buffer_error)
add_msg (some msg) dw_size b =
    if ltb net_data_bufsize dw_size
    then (b, buffer_error)
    else if ltb ((b.pos + dw_size) % 2 ^ 32) compress_packet_size
    then (
      record b {
        buffer = write_at b.buffer b.pos (take dw_size msg);
        pos = (b.pos + dw_size) % 2 ^ 32;
        count = (b.count + 1) % 2 ^ 16;
      },
      buffer_added,
    )
    else if b.pos == 0
    then (
      record b {
        buffer = write_at b.buffer 0 (take dw_size msg);
        pos = dw_size;
        count = (b.count + 1) % 2 ^ 16;
      },
      buffer_send,
    )
    else (b, buffer_send_add)

-- What lzoCompress left in the send buffer at offset 12, then the body (again, where it did not
-- help), then the header.
seal : SendMsgBuffer → Code × List ℕ → SendMsgBuffer × ℕ
seal b (success, out) =
    let size = net_compress_size + length out in
    (
      record b {
        send_buffer =
            write_at (write_at b.send_buffer net_compress_size out) 0 (net_compress size 1);
        pos = 0;
        count = 0;
      },
      size,
    )
seal b (code, out) =
    let size = net_compress_size + b.pos in
    (
      record b {
        send_buffer =
            write_at
              (write_at (write_at b.send_buffer net_compress_size out) net_compress_size
                (take b.pos b.buffer))
              0 (net_compress size 0);
        pos = 0;
        count = 0;
      },
      size,
    )

-- The size of the packet that `send_buffer` now starts with; 0 is nothing to send. CMinLzo::init has
-- succeeded, which the code calls here without a look at its answer: where it had failed, the code
-- would go on without work memory.
unfoldable pub get_send_size : Lzo → SendMsgBuffer → SendMsgBuffer × ℕ
unfolding seal
get_send_size lzo b = if b.pos == 0 then (b, 0) else seal b (lzo_compress lzo (take b.pos b.buffer))

-- The messages gathered so far, back to back.
abbrev pub content : SendMsgBuffer → List ℕ
content b = take b.pos b.buffer

-- Both arrays have their size, and what is gathered fits a message buffer.
pub record IsValid (b : SendMsgBuffer) : Type 0 where
  pub pos_le : b.pos ≤ net_data_bufsize
  pub buffer_length : length b.buffer ≡ net_data_msg_bufsize
  pub send_buffer_length : length b.send_buffer ≡ net_data_msg_bufsize
