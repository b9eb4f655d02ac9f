-- ===== src/Session.antt =====
-- net/session.{h,cpp}: one connection. A method takes the session and returns it with the calls
-- that it makes on the socket and on the server's handlers, in their order. Methods that take the
-- write mutex run their guarded blocks without interleaving, so each method is one step; the
-- completion handlers of async_write and async_read_some are steps of their own.
pub mod Closing
pub mod Own
pub mod Delivery
use ran_online.Base.{
  ℕ, zero, suc, ◌%◌, ◌^◌, List, [], ◌∷◌, ◌++◌, map, Bool, true, false, Option, some, none,
}
use ran_online.Base.{length, take, if◌then◌else◌, ltb}
use ran_online.MinLzo.{Lzo}
use ran_online.Packet.{Message}
use ran_online.Packet.Framer.{MessageFramer, Fed, feed}
use ran_online.SendBuffer.{SendMsgBuffer, AddResult, buffer_send, buffer_added, buffer_send_add}
use ran_online.SendBuffer.{buffer_error, new_send_msg_buffer, add_msg, get_send_size}

-- async_read_some; async_write of a packet; the message handler; shutdown and close of the
-- socket; the close handler with its client id.
pub data Effect : Type 0 where
  start_read : Effect
  start_write : List ℕ → Effect
  on_msg : Message → Effect
  shut_socket : Effect
  on_close : ℕ → Effect

pub record Session : Type 0 where
  pub client_id : ℕ
  pub framer : MessageFramer
  pub closed : Bool
  pub send_buffer : SendMsgBuffer
  pub write_queue : List (List ℕ)
  pub write_in_progress : Bool

unfoldable pub new_session : ℕ → Session
new_session client_id = record {
  client_id = client_id;
  framer = record { buf = [] };
  closed = false;
  send_buffer = new_send_msg_buffer;
  write_queue = [];
  write_in_progress = false;
}

-- Also `Start`.
unfoldable pub do_read : Session → Session × List Effect
do_read s = (s, start_read ∷ [])

-- `Close`. The source tests and sets the flag without a lock; here the calls on one session do not
-- overlap.
unfoldable pub close : Session → Session × List Effect
close s =
    if s.closed
    then (s, [])
    else (record s { closed = true; write_queue = [] }, shut_socket ∷ on_close s.client_id ∷ [])

-- The completion of async_read_some: its error flag, and the bytes read.
deliveries : ℕ → List Message → List Effect
deliveries client_id = map (λ (m : Message). on_msg (record m { client_id = client_id }))

unfoldable pub read_done : Lzo → Bool → List ℕ → Session → Session × List Effect
unfolding deliveries
read_done lzo ec chunk s =
    let r = feed lzo s.framer chunk in
    if ec
    then close s
    else if r.fed_ok
    then (record s { framer = r.framer }, deliveries s.client_id r.out ++ (start_read ∷ []))
    else close (record s { framer = r.framer })

unfoldable pub do_write : Session → Session × List Effect
do_write s = elim s.write_queue [
  | [] ↦ (record s { write_in_progress = false }, [])
  | packet ∷ rest ↦ (s, start_write packet ∷ [])
]

unfoldable pub enqueue_write : List ℕ → Session → Session × List Effect
enqueue_write packet s =
    let queued = s.write_queue ++ (packet ∷ []) in
    if s.write_in_progress
    then (record s { write_queue = queued }, [])
    else do_write (record s { write_queue = queued; write_in_progress = true })

pop_front : List (List ℕ) → Option (List (List ℕ))
pop_front [] = none
pop_front (packet ∷ rest) = some rest

write_next : Session → Option (List (List ℕ)) → Option (Session × List Effect)
write_next s none = none
write_next s (some rest) = some (do_write (record s { write_queue = rest }))

-- The completion of async_write. `none` is undefined behaviour: pop_front of an empty deque.
unfoldable pub write_done : Bool → Session → Option (Session × List Effect)
unfolding pop_front write_next
write_done ec s = if ec then some (close s) else write_next s (pop_front s.write_queue)

-- Seals what the send buffer holds and enqueues a copy of it. `Send` has the same lines twice.
send_sealed : Session → SendMsgBuffer × ℕ → Session × List Effect
send_sealed s (b, size) =
    if ltb 0 size
    then enqueue_write (take size b.send_buffer) (record s { send_buffer = b })
    else (record s { send_buffer = b }, [])

unfoldable pub flush : Lzo → Session → Session × List Effect
unfolding send_sealed
flush lzo s = send_sealed s (get_send_size lzo s.send_buffer)

-- framed->size() is cast to uint32_t.
abbrev pub buffer_message : List ℕ → SendMsgBuffer → SendMsgBuffer × AddResult
buffer_message framed = add_msg (some framed) (length framed % 2 ^ 32)

-- The answer of the second addMsg is not looked at.
add_again : List ℕ → Session × List Effect → Session × List Effect
add_again framed (s, effects) =
    (record s { send_buffer = (buffer_message framed s.send_buffer).0 }, effects)

after_add : Lzo → List ℕ → Session → AddResult → Session × List Effect
unfolding add_again
after_add lzo framed s buffer_error = close s
after_add lzo framed s buffer_added = (s, [])
after_add lzo framed s buffer_send = flush lzo s
after_add lzo framed s buffer_send_add = add_again framed (flush lzo s)

unfoldable pub send : Lzo → List ℕ → Session → Session × List Effect
unfolding after_add
send lzo framed s =
    let (b, answer) = buffer_message framed s.send_buffer in
    after_add lzo framed (record s { send_buffer = b }) answer
