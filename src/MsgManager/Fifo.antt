-- ===== src/MsgManager/Fifo.antt =====
-- The two lists are one queue: what the logic thread gets is what the I/O threads inserted.
use ran_online.Base.{
  List, [], ◌∷◌, ◌++◌, Option, some, none, ◌≡◌, refl, sym, ap, ◌∙◌, append-nil, append_assoc,
}
use ran_online.Packet.{Message}
use ran_online.MsgManager.{
  MsgManager, msg_queue_insert, msg_queue_flip, flip_loop, get_msg, get_from,
}

-- The abstract queue, oldest message first.
abbrev pub to_list : MsgManager → List Message
to_list q = q.back ++ q.front

-- One call by some thread.
pub data Call : Type 0 where
  inserts : Message → Call
  flips gets : Call

abbrev pub of_option : Option Message → List Message
of_option none = []
of_option (some m) = m ∷ []

abbrev pub perform : Call → MsgManager → MsgManager × List Message
perform (inserts m) q = (msg_queue_insert m q, [])
perform flips q = (msg_queue_flip q, [])
perform gets q = let (q', o) = get_msg q in (q', of_option o)

-- The calls of all threads in the order in which they took the mutex, and what was got.
pub calls : List Call → MsgManager → MsgManager × List Message
calls [] q = (q, [])
calls (c ∷ cs) q =
    let (q', got) = perform c q in let (q'', later) = calls cs q' in (q'', got ++ later)

abbrev pub inserted : List Call → List Message
inserted [] = []
inserted (inserts m ∷ cs) = m ∷ inserted cs
inserted (flips ∷ cs) = inserted cs
inserted (gets ∷ cs) = inserted cs

flip_loop-append : (front back : List Message) → flip_loop front back ≡ back ++ front
unfolding flip_loop
flip_loop-append [] back = sym (append-nil back)
flip_loop-append (m ∷ front) back =
    flip_loop-append front (back ++ (m ∷ [])) ∙ append_assoc back (m ∷ []) front

pub to_list-insert :
    (m : Message) (q : MsgManager) → to_list (msg_queue_insert m q) ≡ to_list q ++ (m ∷ [])
unfolding msg_queue_insert
to_list-insert m q = sym (append_assoc q.back q.front (m ∷ []))

pub to_list-flip : (q : MsgManager) → to_list (msg_queue_flip q) ≡ to_list q
unfolding msg_queue_flip
to_list-flip q = append-nil (flip_loop q.front q.back) ∙ flip_loop-append q.front q.back

get_from-to_list :
    (q : MsgManager) (back : List Message)
    → q.back ≡ back
    → of_option (get_from q back).1 ++ to_list (get_from q back).0 ≡ back ++ q.front
unfolding get_from
get_from-to_list q [] e = ap (λ b. b ++ q.front) e
get_from-to_list q (m ∷ back) e = refl

pub to_list-get : (q : MsgManager) → of_option (get_msg q).1 ++ to_list (get_msg q).0 ≡ to_list q
unfolding get_msg
to_list-get q = get_from-to_list q q.back refl

-- Over any interleaving of inserts, flips and gets, the messages got, followed by those still
-- queued, are the messages queued before followed by those inserted: none is lost, none is doubled,
-- and the order of arrival is kept.
pub calls_fifo :
    (cs : List Call) (q : MsgManager)
    → (calls cs q).1 ++ to_list (calls cs q).0 ≡ to_list q ++ inserted cs
unfolding calls
calls_fifo [] q = sym (append-nil (to_list q))
calls_fifo (inserts m ∷ cs) q =
    calls_fifo cs (msg_queue_insert m q)
    ∙ rw (to_list-insert m q) (append_assoc (to_list q) (m ∷ []) (inserted cs))
calls_fifo (flips ∷ cs) q =
    calls_fifo cs (msg_queue_flip q) ∙ ap (λ l. l ++ inserted cs) (to_list-flip q)
calls_fifo (gets ∷ cs) q =
    let got = of_option (get_msg q).1 in
    append_assoc got (calls cs (get_msg q).0).1 (to_list (calls cs (get_msg q).0).0)
    ∙ ap (◌++◌ got) (calls_fifo cs (get_msg q).0)
    ∙ sym (append_assoc got (to_list (get_msg q).0) (inserted cs))
    ∙ ap (λ l. l ++ inserted cs) (to_list-get q)
