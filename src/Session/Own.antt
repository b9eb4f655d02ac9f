-- ===== src/Session/Own.antt =====
-- What a call on a session says to the server of net/session.cpp: whom the close handler names, and
-- what stays as it was where it is not called.
use ran_online.Base.{
  ℕ, ◌≡◌, refl, ◌∙◌, sym, ap, List, [], ◌∷◌, ◌++◌, Bool, true, false, Option, some, none, arith,
  subst, All, All-append, take,
}
use ran_online.MinLzo.{Lzo}
use ran_online.Packet.{Message}
use ran_online.Packet.Framer.{feed}
use ran_online.SendBuffer.{
  AddResult, SendMsgBuffer, buffer_send, buffer_added, buffer_send_add, buffer_error, get_send_size,
}
use ran_online.Session.{
  Session, Effect, start_read, start_write, on_msg, shut_socket, on_close, close, do_write,
  enqueue_write, write_done, write_next, pop_front, read_done, deliveries, send, flush, send_sealed,
  after_add, add_again, buffer_message,
}

-- The clients that the close handler is called with.
abbrev pub closings : List Effect → List ℕ
closings [] = []
closings (start_read ∷ es) = closings es
closings (start_write p ∷ es) = closings es
closings (on_msg m ∷ es) = closings es
closings (shut_socket ∷ es) = closings es
closings (on_close c ∷ es) = c ∷ closings es

-- Of a call on a session with this id and this closed flag: the id stays, the close handler is only
-- called with it, and where it is not called the flag stays.
pub record Own (id : ℕ) (flag : Bool) (r : Session × List Effect) : Type 0 where
  pub same_id : r.0.client_id ≡ id
  pub own_id : All (λ (c : ℕ). c ≡ id) (closings r.1)
  pub same_flag : closings r.1 ≡ [] → r.0.closed ≡ flag

closings-append : (es fs : List Effect) → closings (es ++ fs) ≡ closings es ++ closings fs
closings-append [] fs = refl
closings-append (start_read ∷ es) fs = closings-append es fs
closings-append (start_write p ∷ es) fs = closings-append es fs
closings-append (on_msg m ∷ es) fs = closings-append es fs
closings-append (shut_socket ∷ es) fs = closings-append es fs
closings-append (on_close c ∷ es) fs = ap (◌∷◌ c) (closings-append es fs)

closings-deliveries : (c : ℕ) (ms : List Message) → closings (deliveries c ms) ≡ []
unfolding deliveries
closings-deliveries c [] = refl
closings-deliveries c (m ∷ ms) = closings-deliveries c ms

pub close-Own : (s : Session) → Own s.client_id s.closed (close s)
unfolding close
close-Own s = ground arith

do_write-Own : (s : Session) → Own s.client_id s.closed (do_write s)
unfolding do_write
do_write-Own s = ground arith

enqueue_write-Own : (p : List ℕ) (s : Session) → Own s.client_id s.closed (enqueue_write p s)
unfolding enqueue_write
enqueue_write-Own p s = ground (
  arith,
  do_write-Own (record s { write_queue = s.write_queue ++ (p ∷ []); write_in_progress = true }),
)

send_sealed-Own : (s : Session) (r : SendMsgBuffer × ℕ) → Own s.client_id s.closed (send_sealed s r)
unfolding send_sealed
send_sealed-Own s (b, size) =
    ground (arith, enqueue_write-Own (take size b.send_buffer) (record s { send_buffer = b }))

pub flush-Own : (lzo : Lzo) (s : Session) → Own s.client_id s.closed (flush lzo s)
unfolding flush
flush-Own lzo s = send_sealed-Own s (get_send_size lzo s.send_buffer)

after_add-Own :
    (lzo : Lzo) (framed : List ℕ) (s : Session) (r : AddResult)
    → Own s.client_id s.closed (after_add lzo framed s r)
unfolding after_add add_again
after_add-Own lzo framed s buffer_error = close-Own s
after_add-Own lzo framed s buffer_added = record {
  same_id = refl;
  own_id = record {};
  same_flag = λ h. refl;
}
after_add-Own lzo framed s buffer_send = flush-Own lzo s
after_add-Own lzo framed s buffer_send_add = ground (arith, flush-Own lzo s)

pub send-Own :
    (lzo : Lzo) (framed : List ℕ) (s : Session) → Own s.client_id s.closed (send lzo framed s)
unfolding send
send-Own lzo framed s =
    let (b, answer) = buffer_message framed s.send_buffer in
    after_add-Own lzo framed (record s { send_buffer = b }) answer

pub read_done-Own :
    (lzo : Lzo) (ec : Bool) (chunk : List ℕ) (s : Session)
    → Own s.client_id s.closed (read_done lzo ec chunk s)
unfolding read_done
read_done-Own lzo ec chunk s =
    let r = feed lzo s.framer chunk in
    ground (
      arith,
      close-Own s,
      close-Own (record s { framer = r.framer }),
      closings-append (deliveries s.client_id r.out) (start_read ∷ []),
      closings-deliveries s.client_id r.out,
    )

abbrev pub OwnIn : ℕ → Bool → Option (Session × List Effect) → Type 0
OwnIn id flag none = Unit
OwnIn id flag (some r) = Own id flag r

write_next-Own :
    (s : Session) (o : Option (List (List ℕ))) → OwnIn s.client_id s.closed (write_next s o)
unfolding write_next
write_next-Own s none = tt
write_next-Own s (some rest) = do_write-Own (record s { write_queue = rest })

pub write_done-Own : (ec : Bool) (s : Session) → OwnIn s.client_id s.closed (write_done ec s)
unfolding write_done
write_done-Own true s = close-Own s
write_done-Own false s = write_next-Own s (pop_front s.write_queue)

append-empty : (xs ys : List ℕ) → xs ++ ys ≡ [] → (xs ≡ []) × (ys ≡ [])
append-empty [] ys h = (refl, h)
append-empty (x ∷ xs) ys h = cc

-- A second call behind the first.
pub append-Own :
    (id : ℕ) (flag : Bool) (t u : Session) (first second : List Effect)
    → Own id flag (t, first)
    → Own t.client_id t.closed (u, second)
    → Own id flag (u, first ++ second)
append-Own id flag t u first second a b =
    let theirs : All (λ (c : ℕ). c ≡ id) (closings second) =
      subst (λ i. All (λ (c : ℕ). c ≡ i) (closings second)) a.same_id b.own_id in
    record {
      same_id = b.same_id ∙ a.same_id;
      own_id =
          rw (closings-append first second)
            (All-append (λ (c : ℕ). c ≡ id) (closings first) (closings second) a.own_id theirs);
      same_flag = λ h.
          let (e, f) =
            append-empty (closings first) (closings second)
              (sym (closings-append first second) ∙ h) in
          b.same_flag f ∙ a.same_flag e;
    }
