-- ===== src/Session/Closing.antt =====
-- Runs of a session of net/session.cpp, and what a write that is still in flight when the session
-- is closed meets. The calls of a run do not overlap.
use ran_online.Base.{ℕ, ◌≡◌, List, [], ◌∷◌, ◌++◌, Bool, false, Option, some, none, arith}
use ran_online.MinLzo.{Lzo}
use ran_online.Session.{Session, Effect, close, write_done, read_done, send, flush}

-- What happens to a session from outside.
pub data Event : Type 0 where
  sends : List ℕ → Event
  flushes closes : Event
  reads : Bool → List ℕ → Event
  writes : Bool → Event

abbrev pub step : Lzo → Session → Event → Option (Session × List Effect)
step lzo s (sends framed) = some (send lzo framed s)
step lzo s flushes = some (flush lzo s)
step lzo s closes = some (close s)
step lzo s (reads ec chunk) = some (read_done lzo ec chunk s)
step lzo s (writes ec) = write_done ec s

-- The rest of a run behind a first step. `none` is undefined behaviour on the way.
abbrev pub and_then :
    Option (Session × List Effect)
    → (Session → Option (Session × List Effect))
    → Option (Session × List Effect)
and_then none next = none
and_then (some (s, first)) next = elim (next s) [
  | none ↦ none
  | some (t, later) ↦ some (t, first ++ later)
]

unfoldable pub run : Lzo → Session → List Event → Option (Session × List Effect)
run lzo s [] = some (s, [])
run lzo s (e ∷ es) = and_then (step lzo s e) (λ t. run lzo t es)

-- A packet whose write completes without an error after the session was closed: the completion
-- handler pops the front of the queue that `Close` has emptied, whatever was in it.
pub close-write_done : (s : Session) → s.closed ≡ false → write_done false (close s).0 ≡ none
unfolding close write_done
close-write_done s h = ground arith
