-- ===== src/Examples/Buffers.antt =====
-- Frames, the send buffer, the receive queue and the compression wrapper at concrete inputs.
use ran_online.Base.{
  ℕ, ◌<◌, ◌≡◌, refl, sym, List, [], ◌∷◌, ◌++◌, arith, length, take, drop, replicate, true, false,
  some, Bool, ◌&&◌, ◌==◌, if◌then◌else◌, get_or, ◌-◌, Bool-cases, inl, inr, ap₂, length-append,
  take-append_length,
}
use ran_online.MinLzo.{Lzo, IsLossless, success, lzo_compress, lzo_decompress}
use ran_online.MinLzo.Laws.{lzo_decompress-compress}
use ran_online.Packet.{Message, encode_message, read_le32, max_message_size}
use ran_online.Packet.Framer.{feed, scan, open_frame}
use ran_online.Packet.Framer.Stream.{
  outcome, feed_chunks, concat, empty_framer, feed_chunks-concat, feed_bounded,
}
use ran_online.Packet.Framer.RoundTrip.{Outgoing}
use ran_online.SendBuffer.{SendMsgBuffer, add_msg, new_send_msg_buffer, IsValid, get_send_size}
use ran_online.SendBuffer.Adding.{new_send_msg_buffer-IsValid, Adds, add_msg-Adds}
use ran_online.SendBuffer.Sealing.{Sealed, get_send_size-Sealed}
use ran_online.MsgManager.{new_msg_manager}
use ran_online.MsgManager.Fifo.{inserts, flips, gets, calls, to_list, inserted, calls_fifo}
use ran_online.Examples.Library.{stored, stored-IsLossless, marker}

-- Nine bytes, the last of them the start of the next frame.
abbrev bytes : List ℕ
bytes = 8 ∷ 0 ∷ 0 ∷ 0 ∷ 43 ∷ 1 ∷ 0 ∷ 0 ∷ 8 ∷ []

abbrev cut : List (List ℕ)
cut = take 3 bytes ∷ drop 3 bytes ∷ []

feed_chunks-concat_example :
    outcome (feed_chunks stored empty_framer cut) ≡ outcome (feed stored empty_framer (concat cut))
feed_chunks-concat_example = feed_chunks-concat stored cut

feed_bounded_example : length (feed stored empty_framer bytes).framer.buf < max_message_size
unfolding feed scan open_frame read_le32
feed_bounded_example = feed_bounded stored empty_framer bytes refl

abbrev ping : Outgoing
ping = record { out_type = 299; out_payload = 1 ∷ 2 ∷ [] }

abbrev greeting : List ℕ
greeting = encode_message 300 (1 ∷ 2 ∷ 3 ∷ [])

add_msg-Adds_example :
    IsValid (add_msg (some (7 ∷ 8 ∷ [])) 2 new_send_msg_buffer).0
    × Adds new_send_msg_buffer (7 ∷ 8 ∷ []) (add_msg (some (7 ∷ 8 ∷ [])) 2 new_send_msg_buffer)
add_msg-Adds_example =
    add_msg-Adds new_send_msg_buffer (7 ∷ 8 ∷ []) new_send_msg_buffer-IsValid (omega arith)

-- The buffer behind the message.
abbrev filled : SendMsgBuffer
filled = (add_msg (some (7 ∷ 8 ∷ [])) 2 new_send_msg_buffer).0

get_send_size-Sealed_example : Sealed stored filled (get_send_size stored filled)
unfolding add_msg new_send_msg_buffer
get_send_size-Sealed_example =
    get_send_size-Sealed stored stored-IsLossless filled add_msg-Adds_example.0 (omega arith)

-- An LZO that shortens a run of the byte 5, and appends the marker to any other text.
fives : List ℕ → Bool
fives [] = true
fives (x ∷ xs) = (x == 5) && fives xs

abbrev packing : Lzo
packing = record {
  lzo1x_1_compress = λ xs. record {
    lzo_ok = true;
    written = if fives xs then 5 ∷ length xs ∷ [] else xs ++ marker;
  };
  lzo1x_decompress_safe = λ ys cap. record {
    lzo_ok = true;
    written = if length ys == 2 then replicate (get_or ys 1 0) 5 else take (length ys - 3) ys;
  };
}

fives-replicate : (xs : List ℕ) → fives xs ≡ true → replicate (length xs) 5 ≡ xs
unfolding fives
fives-replicate [] h = refl
fives-replicate (x ∷ xs) h = ap₂ ◌∷◌ (sym same) (fives-replicate xs later)
  where
    same : x ≡ 5
    same = ground arith

    later : fives xs ≡ true
    later = ground arith

packed_back :
    (xs : List ℕ)
    → packing.lzo1x_decompress_safe (packing.lzo1x_1_compress xs).written 9
      ≡ record { lzo_ok = true; written = xs }
packed_back xs = elim (Bool-cases (fives xs)) [
  | inl run ↦ rw (run, fives-replicate xs run) refl
  | inr other ↦
      let long = length-append xs marker in
      let not_run : (length (xs ++ marker) == 2) ≡ false = ground arith in
      rw (other, not_run, take-append_length xs marker (length (xs ++ marker) - 3) (omega arith))
        refl
]

packing-IsLossless : IsLossless packing
packing-IsLossless = record {
  decompress-compress = λ xs cap h e. packed_back xs;
  compress-bounded = λ xs. elim (Bool-cases (fives xs)) [
    | inl run ↦ rw run (omega arith)
    | inr other ↦ rw other (omega (arith, length-append xs marker))
  ];
  compress-nonempty = λ xs. elim (Bool-cases (fives xs)) [
    | inl run ↦ rw run (omega arith)
    | inr other ↦ rw other (omega (arith, length-append xs marker))
  ];
}

lzo_decompress-compress_example :
    (2 < 9) × (lzo_decompress packing (5 ∷ 9 ∷ []) 9 ≡ (success, replicate 9 5))
unfolding lzo_compress fives
lzo_decompress-compress_example =
    lzo_decompress-compress packing packing-IsLossless (replicate 9 5) (5 ∷ 9 ∷ []) 9 (omega arith)
      refl

abbrev note : Message
note = record { type = 300; client_id = 4; bytes = [] }

calls_fifo_example :
    (calls (inserts note ∷ flips ∷ gets ∷ []) new_msg_manager).1
      ++ to_list (calls (inserts note ∷ flips ∷ gets ∷ []) new_msg_manager).0
    ≡ to_list new_msg_manager ++ inserted (inserts note ∷ flips ∷ gets ∷ [])
calls_fifo_example = calls_fifo (inserts note ∷ flips ∷ gets ∷ []) new_msg_manager
