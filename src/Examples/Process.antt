-- ===== src/Examples/Process.antt =====
-- A server process that starts, accepts a client, ticks, and meets an error of async_accept.
use ran_online.Base.{ℕ, ◌+◌, ◌≡◌, refl, List, [], ◌∷◌, true, false, some, none, codes, replicate}
use ran_online.Base.Int.{pos}
use ran_online.NetServer.{
  Hooks, NetServer, accept_loop, update_loop, is_zero, new_net_server, start,
}
use ran_online.NetServer.Lifecycle.{
  Event, starts, stops, completes, IsConsistent, run, started, stopped, run-IsConsistent,
  run_balanced,
}
use ran_online.NetServer.Loops.{completions, begun, hooks_run, run_loops, start_loops}
use ran_online.Session.{Effect, new_session, on_close, read_done, do_read}
use ran_online.AgentServer.{AgentServer}
use ran_online.AgentServer.Lifecycle.{on_start, on_accept, on_read}
use ran_online.AgentServer.Dispatch.{react, react_all, handle, on_session}
use ran_online.AgentServer.Gateway.{Gateway, note, Reach, Step, here, next}
use ran_online.AgentServer.Gateway.Invariant.{IsSound, Reach-IsSound}
use ran_online.AgentServer.Hooks.{agent_hooks}
use ran_online.MsgManager.{msg_queue_flip, msg_queue_insert, get_msg}
use ran_online.Packet.{Message, read_le32}
use ran_online.Packet.Framer.{feed, scan, nested, open_frame}
use ran_online.Servers.{find, assign, change, erase}
use ran_online.Examples.Library.{stored}
use ran_online.Examples.Agent.{failing, gateway, granting}

abbrev any_ip : ℕ → List ℕ
any_ip id = codes "10.0.0.1"

-- The gateway as it is built, and its methods.
abbrev idle : AgentServer
idle = record gateway {
  sessions = [];
  accepted = 0;
  next_client_id = 0;
  recv_msgs = record { front = []; back = [] };
}

abbrev pub idle_hooks : Hooks AgentServer (ℕ × Effect)
idle_hooks = agent_hooks stored failing any_ip true true true

abbrev pub idle_server : NetServer AgentServer
idle_server = new_net_server (pos 2) idle

-- A client connects and sends a login. The tick takes the message and finds the session; then the
-- close handler runs, and then the login's handler.
abbrev login_bytes : List ℕ
login_bytes = 68 ∷ 0 ∷ 0 ∷ 0 ∷ 233 ∷ 0 ∷ 0 ∷ 0 ∷ replicate 60 65

abbrev sent : AgentServer
sent = (on_read stored 1 false login_bytes (on_accept idle).0).0

abbrev flipped : AgentServer
flipped = record sent { updates = sent.updates + 1; recv_msgs = msg_queue_flip sent.recv_msgs }

abbrev login_msg : Message
login_msg = record { type = 233; client_id = 1; bytes = login_bytes }

abbrev left : AgentServer
left = react (on_close 1) (record flipped {
  recv_msgs = record { front = []; back = [] };
  processed = flipped.processed + 1;
})

abbrev raced_state : Gateway
raced_state = record {
  srv = (handle stored granting (any_ip 1) login_msg (new_session 1) left).0;
  busy = none;
  raced = note login_msg (find 1 left.sessions) [];
}

found_there : find 1 flipped.sessions ≡ some (new_session 1)
unfolding on_read on_accept read_done feed new_session on_session do_read find assign scan nested
    open_frame change react_all react read_le32
found_there = refl

taken : get_msg flipped.recv_msgs ≡ (record { front = []; back = [] }, some login_msg)
unfolding on_read on_accept read_done feed new_session on_session do_read find assign scan nested
    open_frame change react_all react read_le32 get_msg msg_queue_flip msg_queue_insert
taken = refl

raced-Reach : Reach stored granting any_ip raced_state
unfolding new_session
raced-Reach =
    next
      (next
        (next
          (next (next (next (here (refl, refl)) Step.accepts) (Step.reads 1 false login_bytes))
            Step.flips)
          (Step.takes (record { front = []; back = [] }) login_msg (new_session 1) refl taken
            found_there))
        (Step.closes 1))
      (Step.handles login_msg (new_session 1) refl refl)

-- The client is noted.
noted : raced_state.raced ≡ 1 ∷ []
unfolding on_read on_accept read_done feed new_session on_session do_read find assign scan nested
    open_frame change react_all react read_le32 erase note
noted = refl

Reach-IsSound_example : IsSound raced_state.srv raced_state.raced
Reach-IsSound_example = Reach-IsSound stored granting any_ip raced-Reach

pub idle-IsConsistent : IsConsistent idle_server
unfolding new_net_server
idle-IsConsistent = record {
  accepting = refl;
  guarded = refl;
  pooled = λ h. cc;
  joined = λ h. refl;
}

abbrev day : List Event
day =
    starts false 8
    ∷ starts true 8
    ∷ completes accept_loop false
    ∷ completes accept_loop true
    ∷ stops
    ∷ []

run-IsConsistent_example : IsConsistent (run idle_hooks day idle_server).0
run-IsConsistent_example = run-IsConsistent idle_hooks day idle_server idle-IsConsistent

run_balanced_example :
    started (run idle_hooks (starts true 8 ∷ []) idle_server).1
    ≡ stopped (run idle_hooks (starts true 8 ∷ []) idle_server).1 + 1
unfolding new_net_server run start agent_hooks is_zero on_start
run_balanced_example = run_balanced idle_hooks (starts true 8 ∷ []) idle_server refl

run_loops_example :
    (begun accept_loop
        (run idle_hooks
          (completions ((accept_loop, false) ∷ (update_loop, false) ∷ []))
          idle_server).1
      ≡ 0)
    × (hooks_run accept_loop
          (run idle_hooks
            (completions ((accept_loop, false) ∷ (update_loop, false) ∷ []))
            idle_server).1
        ≡ 1)
    × ((run idle_hooks
          (completions ((accept_loop, false) ∷ (update_loop, false) ∷ []))
          idle_server).0.running
        ≡ false)
unfolding new_net_server
run_loops_example =
    run_loops idle_hooks accept_loop ((accept_loop, false) ∷ (update_loop, false) ∷ []) idle_server

start_loops_example :
    begun accept_loop
        (run idle_hooks (starts true 8 ∷ completions ((accept_loop, true) ∷ [])) idle_server).1
      + 1
    ≡ 2
unfolding new_net_server agent_hooks is_zero on_start
start_loops_example =
    start_loops idle_hooks accept_loop 8 ((accept_loop, true) ∷ []) idle_server refl refl
