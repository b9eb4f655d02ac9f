-- ===== src/Examples/Conversation.antt =====
-- A session that is sent two messages, flushed, and written out.
use ran_online.Base.{
  take, drop, ℕ, ◌≡◌, refl, true, false, List, [], ◌∷◌, Option, some, none, map, arith, All,
}
use ran_online.MinLzo.{lzo_compress}
use ran_online.Packet.{write_le32, encode_message}
use ran_online.Packet.Framer.Stream.{outcome, feed_chunks, empty_framer}
use ran_online.Packet.Framer.RoundTrip.{Outgoing, received}
use ran_online.SendBuffer.{add_msg, get_send_size, write_at, net_compress, new_send_msg_buffer}
use ran_online.Session.{
  Session, Effect, new_session, send, flush, enqueue_write, do_write, write_done, close,
}
use ran_online.Session.Closing.{run, close-write_done}
use ran_online.Session.Delivery.Runs.{
  Act, say, flush_now, written, event, IsGood, Causal, run_defined, delivery,
}
use ran_online.Examples.Library.{stored, stored-IsLossless}

abbrev hello : Outgoing
hello = record { out_type = 300; out_payload = 1 ∷ 2 ∷ 3 ∷ [] }

abbrev done : Outgoing
done = record { out_type = 299; out_payload = [] }

abbrev talk : List Act
talk = say hello ∷ say done ∷ flush_now ∷ written ∷ []

talk-IsGood : All IsGood talk
talk-IsGood = omega arith

-- One envelope of 12 bytes around 11 and 8 bytes.
abbrev packet : List ℕ
packet =
    31 ∷ 0 ∷ 0 ∷ 0 ∷ 170 ∷ 0 ∷ 0 ∷ 0 ∷ 0 ∷ 0 ∷ 0 ∷ 0 ∷ 11 ∷ 0 ∷ 0 ∷ 0 ∷ 44 ∷ 1 ∷ 0 ∷ 0 ∷ 1 ∷ 2 ∷ 3
    ∷ 8 ∷ 0 ∷ 0 ∷ 0 ∷ 43 ∷ 1 ∷ 0 ∷ 0 ∷ []

talk-Causal : Causal stored (new_session 7) talk
unfolding new_session send flush enqueue_write do_write write_done add_msg get_send_size write_at
    net_compress new_send_msg_buffer encode_message write_le32 lzo_compress
talk-Causal = (tt, (tt, (tt, (refl, tt))))

run_defined_example :
    (r : Session × List Effect) × (run stored (new_session 7) (map event talk) ≡ some r)
run_defined_example = run_defined stored stored-IsLossless 7 talk talk-IsGood talk-Causal

abbrev result_of : Option (Session × List Effect) → Session × List Effect
result_of none = (new_session 7, [])
result_of (some r) = r

abbrev ended : Session × List Effect
ended = result_of (run stored (new_session 7) (map event talk))

-- The reads that the peer sees: the envelope in two parts.
abbrev reads_seen : List (List ℕ)
reads_seen = take 17 packet ∷ drop 17 packet ∷ []

delivery_example :
    outcome (feed_chunks stored empty_framer reads_seen)
    ≡ (some [], received hello ∷ received done ∷ [])
unfolding new_session send flush enqueue_write do_write write_done add_msg get_send_size write_at
    net_compress new_send_msg_buffer encode_message write_le32 lzo_compress run
delivery_example =
    delivery stored stored-IsLossless 7 talk ended.0 ended.1 reads_seen talk-IsGood talk-Causal refl
      refl refl

-- The write of one packet is in flight when the link is closed.
abbrev in_flight : Session
in_flight = record (new_session 7) { write_queue = packet ∷ []; write_in_progress = true }

close-write_done_example : write_done false (close in_flight).0 ≡ none
unfolding new_session
close-write_done_example = close-write_done in_flight refl
