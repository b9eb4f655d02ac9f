-- ===== src/AgentServer/Gateway.antt =====
-- Runs of the gateway of servers/agentserver/agent_server.cpp, with the I/O threads between the parts
-- of a tick. The tick looks a message's session up in one guarded block and runs the handler later;
-- the close handler, which is a guarded block of its own, may run at any moment in between. A
-- handler's body is one step: it looks at the tables or changes them in one place only, so that a
-- link that ends during it counts as ended before it or behind it.
pub mod Tables
pub mod Logins
pub mod Invariant
use ran_online.Base.{
  ℕ, zero, ◌+◌, List, [], ◌∷◌, ◌≡◌, Bool, true, false, Option, some, none, if◌then◌else◌, ◌==◌,
}
use ran_online.MinLzo.{Lzo}
use ran_online.Packet.{Message}
use ran_online.MsgManager.{MsgManager, msg_queue_flip, get_msg}
use ran_online.Session.{Session, Effect, on_close}
use ran_online.Odbc.{Driver}
use ran_online.Servers.{find, change, flush_sessions}
use ran_online.AgentServer.{AgentServer, idn_net_msg_login}
use ran_online.AgentServer.Dispatch.{react, handle}
use ran_online.AgentServer.Lifecycle.{on_start, on_stop, on_accept, on_read, on_write, on_late_read}

-- `busy` is the message whose session the tick has found and whose handler has not run yet. `raced`
-- names the clients whose login message was handled when their link had ended meanwhile.
pub record Gateway : Type 0 where
  pub srv : AgentServer
  pub busy : Option Message
  pub raced : List ℕ

unfoldable pub note : Message → Option Session → List ℕ → List ℕ
note msg (some s) raced = raced
note msg none raced = if msg.type == idn_net_msg_login then msg.client_id ∷ raced else raced

-- A step of the process on the server alone.
abbrev pub on : Gateway → AgentServer → Gateway
on g after = record g { srv = after }

pub data Step (lzo : Lzo) (driver : Driver) (remote_ip : ℕ → List ℕ) (g : Gateway)
    : Gateway → Type 0 where
  starts :
      (env_ok dbc_ok connect_ok : Bool)
      → Step lzo driver remote_ip g (on g (on_start driver env_ok dbc_ok connect_ok g.srv).0)
  stops : Step lzo driver remote_ip g (on g (on_stop g.srv))
  accepts : Step lzo driver remote_ip g (on g (on_accept g.srv).0)
  reads :
      (id : ℕ) (ec : Bool) (chunk : List ℕ)
      → Step lzo driver remote_ip g (on g (on_read lzo id ec chunk g.srv).0)
  late_reads :
      (s : Session) (ec : Bool) (chunk : List ℕ)
      → Step lzo driver remote_ip g (on g (on_late_read lzo s ec chunk g.srv).0)
  writes :
      (id : ℕ) (ec : Bool) (after : AgentServer) (effects : List (ℕ × Effect))
      → on_write id ec g.srv ≡ some (after, effects)
      → Step lzo driver remote_ip g (on g after)
  -- `Close` has set its flag, or done any other work on the session object, and the close handler has
  -- not run yet.
  works :
      (id : ℕ) (t : Session)
      → t.client_id ≡ id
      → Step lzo driver remote_ip g
          (on g (record g.srv { sessions = change (λ (old : Session). t) id g.srv.sessions }))
  -- The close handler, called once or, by two threads, twice.
  closes : (id : ℕ) → Step lzo driver remote_ip g (on g (react (on_close id) g.srv))
  -- The parts of a tick.
  flips : Step lzo driver remote_ip g (
      on g
        (record g.srv { updates = g.srv.updates + 1; recv_msgs = msg_queue_flip g.srv.recv_msgs }))
  takes :
      (queue : MsgManager) (msg : Message) (s : Session)
      → g.busy ≡ none
      → get_msg g.srv.recv_msgs ≡ (queue, some msg)
      → find msg.client_id g.srv.sessions ≡ some s
      → Step lzo driver remote_ip g (record g {
        srv = record g.srv { recv_msgs = queue; processed = g.srv.processed + 1 };
        busy = some msg;
      })
  skips :
      (queue : MsgManager) (msg : Message)
      → g.busy ≡ none
      → get_msg g.srv.recv_msgs ≡ (queue, some msg)
      → find msg.client_id g.srv.sessions ≡ none
      → Step lzo driver remote_ip g
          (on g (record g.srv { recv_msgs = queue; processed = g.srv.processed + 1 }))
  handles :
      (msg : Message) (s : Session)
      → g.busy ≡ some msg
      → s.client_id ≡ msg.client_id
      → Step lzo driver remote_ip g (record {
        srv = (handle lzo driver (remote_ip msg.client_id) msg s g.srv).0;
        busy = none;
        raced = note msg (find msg.client_id g.srv.sessions) g.raced;
      })
  flushes :
      Step lzo driver remote_ip g
        (on g (record g.srv { sessions = (flush_sessions lzo g.srv.sessions).0 }))

-- A new gateway has no clients.
abbrev pub IsNew : AgentServer → Type 0
IsNew srv = (srv.sessions ≡ []) × (srv.login_sessions ≡ [])

pub data Reach (lzo : Lzo) (driver : Driver) (remote_ip : ℕ → List ℕ) : Gateway → Type 0 where
  here :
      {srv : AgentServer}
      → IsNew srv
      → Reach lzo driver remote_ip (record { srv = srv; busy = none; raced = [] })
  next :
      {g after : Gateway}
      → Reach lzo driver remote_ip g
      → Step lzo driver remote_ip g after
      → Reach lzo driver remote_ip after
