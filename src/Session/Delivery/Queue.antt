-- ===== src/Session/Delivery/Queue.antt =====
-- The write queue: one write at a time, in the order of the packets.
use ran_online.Base.{ℕ, ◌≡◌, refl, ap, sym, List, [], ◌∷◌, ◌++◌, append-nil, true, false, some}
use ran_online.SendBuffer.{SendMsgBuffer}
use ran_online.Session.{
  Session, Effect, start_read, start_write, on_msg, shut_socket, on_close, do_write, enqueue_write,
  write_done,
}

-- The packets handed to async_write.
abbrev pub started : List Effect → List (List ℕ)
started [] = []
started (start_read ∷ es) = started es
started (start_write p ∷ es) = p ∷ started es
started (on_msg m ∷ es) = started es
started (shut_socket ∷ es) = started es
started (on_close c ∷ es) = started es

pub started-append : (es fs : List Effect) → started (es ++ fs) ≡ started es ++ started fs
started-append [] fs = refl
started-append (start_read ∷ es) fs = started-append es fs
started-append (start_write p ∷ es) fs = ap (◌∷◌ p) (started-append es fs)
started-append (on_msg m ∷ es) fs = started-append es fs
started-append (shut_socket ∷ es) fs = started-append es fs
started-append (on_close c ∷ es) fs = started-append es fs

-- Nothing in flight and nothing queued; or the packet in flight heads the queue.
pub data QueueState (s : Session) : Type 0 where
  idle : s.write_in_progress ≡ false → s.write_queue ≡ [] → QueueState s
  writing :
      (p : List ℕ) (ps : List (List ℕ))
      → s.write_in_progress ≡ true
      → s.write_queue ≡ p ∷ ps
      → QueueState s

-- The packets queued behind the one in flight.
abbrev behind_first : List (List ℕ) → List (List ℕ)
behind_first [] = []
behind_first (p ∷ ps) = ps

abbrev pub waiting : Session → List (List ℕ)
waiting s = behind_first s.write_queue

pub QueueState-same :
    (s : Session) (b : SendMsgBuffer) → QueueState s → QueueState (record s { send_buffer = b })
QueueState-same s b (idle e f) = idle e f
QueueState-same s b (writing p ps e f) = writing p ps e f

-- A step that hands `packets` to the queue: what was started and what waits are, in order, what
-- they were and then these; the rest of the session is as it was.
pub record Queues (s : Session) (packets : List (List ℕ)) (r : Session × List Effect) : Type 0 where
  pub state : QueueState r.0
  pub in_order : started r.1 ++ waiting r.0 ≡ waiting s ++ packets
  pub same_buffer : r.0.send_buffer ≡ s.send_buffer
  pub same_closed : r.0.closed ≡ s.closed

pub enqueue_write-Queues :
    (p : List ℕ) (s : Session) → QueueState s → Queues s (p ∷ []) (enqueue_write p s)
unfolding enqueue_write do_write
enqueue_write-Queues p s (idle e f) =
    rw (e, f)
      (record {
        state = writing p [] refl refl;
        in_order = refl;
        same_buffer = refl;
        same_closed = refl;
      })
enqueue_write-Queues p s (writing q qs e f) =
    rw (e, f)
      (record {
        state = writing q (qs ++ (p ∷ [])) refl refl;
        in_order = refl;
        same_buffer = refl;
        same_closed = refl;
      })

-- A completion without an error while a packet is in flight finds that packet in the queue, and
-- goes on with the next one.
pub write_done-Queues :
    (s : Session)
    → (p : List ℕ) (ps : List (List ℕ)) → s.write_in_progress ≡ true
    → s.write_queue ≡ p ∷ ps
    → (r : Session × List Effect) × (write_done false s ≡ some r) × Queues s [] r
unfolding write_done do_write
write_done-Queues s p [] e f = (
  do_write (record s { write_queue = [] }),
  rw f,
  record { state = idle refl refl; in_order = rw f; same_buffer = refl; same_closed = refl },
)
write_done-Queues s p (q ∷ qs) e f = (
  do_write (record s { write_queue = q ∷ qs }),
  rw f,
  record {
    state = writing q qs e refl;
    in_order = rw f (sym (append-nil (q ∷ qs)));
    same_buffer = refl;
    same_closed = refl;
  },
)
