-- ===== src/SendBuffer/Adding.antt =====
-- `addMsg`: what each of its answers means for the messages gathered.
use ran_online.Base.{ℕ, ◌+◌, ◌%◌, ◌^◌, ◌≤◌, ◌<◌, ◌≡◌, refl, ◌∙◌, List, [], ◌++◌, some}
use ran_online.Base.{arith, length, take, take-all, take-append_length, length-replicate}
use ran_online.SendBuffer.{
  SendMsgBuffer, AddResult, buffer_send, buffer_added, buffer_send_add, buffer_error, add_msg,
  content, IsValid, write_at, new_send_msg_buffer,
}
use ran_online.SendBuffer.{net_data_bufsize, net_data_msg_bufsize, compress_packet_size}
use ran_online.SendBuffer.Memory.{length-write_at, take-write_at, write_at-zero}
use native.Mathlib.Decide.{dec_lt, ℕ_discrete}

pub new_send_msg_buffer-IsValid : IsValid new_send_msg_buffer
unfolding new_send_msg_buffer
new_send_msg_buffer-IsValid = record {
  pos_le = omega arith;
  buffer_length = length-replicate {A = ℕ} net_data_msg_bufsize 0;
  send_buffer_length = length-replicate {A = ℕ} net_data_msg_bufsize 0;
}

-- Added: the message stands behind the others. Send: nothing was gathered and the message alone
-- is to be sent. Send and add: the others have to be sent first, nothing changed. Error: the
-- message is too large, nothing changed.
abbrev pub Adds : SendMsgBuffer → List ℕ → SendMsgBuffer × AddResult → Type 0
Adds b msg (b', buffer_added) =
    (b.pos + length msg < compress_packet_size) × (content b' ≡ content b ++ msg)
Adds b msg (b', buffer_send) =
    (content b ≡ []) × (compress_packet_size ≤ length msg) × (content b' ≡ msg)
Adds b msg (b', buffer_send_add) =
    (0 < b.pos)
    × (compress_packet_size ≤ b.pos + length msg)
    × (length msg ≤ net_data_bufsize)
    × (b' ≡ b)
Adds b msg (b', buffer_error) = (net_data_bufsize < length msg) × (b' ≡ b)

module _ (b : SendMsgBuffer) (msg : List ℕ) (v : IsValid b) (small : length msg < 2 ^ 32) where
  add_msg-large :
      net_data_bufsize < length msg → add_msg (some msg) (length msg) b ≡ (b, buffer_error)
  unfolding add_msg
  add_msg-large large = ground arith

  pub add_msg-gather :
      b.pos + length msg < compress_packet_size
      → add_msg (some msg) (length msg) b ≡ (
        record b {
          buffer = write_at b.buffer b.pos msg;
          pos = b.pos + length msg;
          count = (b.count + 1) % 2 ^ 16;
        },
        buffer_added,
      )
  unfolding add_msg
  add_msg-gather h = rw (take-all (length msg) msg (omega arith)) (ground (arith, v.pos_le))

  add_msg-alone :
      length msg ≤ net_data_bufsize
      → compress_packet_size ≤ length msg
      → b.pos ≡ 0
      → add_msg (some msg) (length msg) b ≡ (
        record b {
          buffer = write_at b.buffer 0 msg;
          pos = length msg;
          count = (b.count + 1) % 2 ^ 16;
        },
        buffer_send,
      )
  unfolding add_msg
  add_msg-alone h k e = rw (take-all (length msg) msg (omega arith)) (ground (arith, v.pos_le))

  add_msg-behind :
      length msg ≤ net_data_bufsize
      → compress_packet_size ≤ b.pos + length msg
      → 0 < b.pos
      → add_msg (some msg) (length msg) b ≡ (b, buffer_send_add)
  unfolding add_msg
  add_msg-behind h k e = ground (arith, v.pos_le)

  -- On every branch `addMsg` does what its answer says, and keeps the arrays and the position in
  -- bounds, so that neither memcpy leaves the array.
  pub add_msg-Adds :
      IsValid (add_msg (some msg) (length msg) b).0 × Adds b msg (add_msg (some msg) (length msg) b)
  add_msg-Adds = elim (dec_lt net_data_bufsize (length msg)) [
    | yes large ↦ rw (add_msg-large large) (v, (large, refl))
    | no fits ↦ elim (dec_lt (b.pos + length msg) compress_packet_size) [
      | yes gather ↦ rw (add_msg-gather gather) (
        record {
          pos_le = omega arith;
          buffer_length =
              length-write_at b.buffer b.pos msg (omega (arith, v.buffer_length)) ∙ v.buffer_length;
          send_buffer_length = v.send_buffer_length;
        },
        (gather, take-write_at b.buffer b.pos msg (omega (arith, v.buffer_length))),
      )
      | no full ↦ elim (ℕ_discrete b.pos 0) [
        | yes e ↦ rw (add_msg-alone (omega arith) (omega arith) e) (
          record {
            pos_le = omega arith;
            buffer_length =
                length-write_at b.buffer 0 msg (omega (arith, v.buffer_length)) ∙ v.buffer_length;
            send_buffer_length = v.send_buffer_length;
          },
          (rw e, omega arith, alone),
        )
        | no ne ↦
            rw (add_msg-behind (omega arith) (omega arith) (omega arith))
              (v, (omega arith, omega arith, omega arith, refl))
      ]
    ]
  ]
    where
      alone : take (length msg) (write_at b.buffer 0 msg) ≡ msg
      alone = rw (write_at-zero b.buffer msg) (take-append_length msg _ _ refl)
