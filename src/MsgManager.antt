-- ===== src/MsgManager.antt =====
-- net/msg_manager.h: the receive queue between the I/O threads and the update tick. Each method
-- holds the mutex, so the threads interleave whole methods.
pub mod Fifo
use ran_online.Base.{
  ℕ, List, [], ◌∷◌, ◌++◌, Option, some, none, ◌≡◌, refl, sym, ap, ◌∙◌, append-nil, append_assoc,
  length, length-append, arith,
}
use ran_online.Packet.{Message}

pub record MsgManager : Type 0 where
  pub front : List Message
  pub back : List Message

unfoldable pub new_msg_manager : MsgManager
new_msg_manager = record { front = []; back = [] }

unfoldable pub msg_queue_insert : Message → MsgManager → MsgManager
msg_queue_insert msg q = record q { front = q.front ++ (msg ∷ []) }

-- The loop moves the head of the first list behind the second until the first is empty.
flip_loop : List Message → List Message → List Message
flip_loop [] back = back
flip_loop (msg ∷ front) back = flip_loop front (back ++ (msg ∷ []))

unfoldable pub msg_queue_flip : MsgManager → MsgManager
unfolding flip_loop
msg_queue_flip q = record { front = []; back = flip_loop q.front q.back }

-- `none` is the answer false.
get_from : MsgManager → List Message → MsgManager × Option Message
get_from q [] = (q, none)
get_from q (msg ∷ back) = (record q { back = back }, some msg)

unfoldable pub get_msg : MsgManager → MsgManager × Option Message
unfolding get_from
get_msg q = get_from q q.back

unfoldable pub front_count : MsgManager → ℕ
front_count q = length q.front

unfoldable pub back_count : MsgManager → ℕ
back_count q = length q.back
