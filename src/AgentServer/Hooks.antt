-- ===== src/AgentServer/Hooks.antt =====
-- The virtual methods of the class of servers/agentserver/agent_server.h, for NetServer.
use ran_online.Base.{ℕ, List, [], Bool, if◌then◌else◌}
use ran_online.Base.Int.{pos, negsuc}
use ran_online.MinLzo.{Lzo}
use ran_online.Session.{Effect}
use ran_online.Odbc.{Driver}
use ran_online.NetServer.{Hooks}
use ran_online.AgentServer.{AgentServer}
use ran_online.AgentServer.Lifecycle.{on_start, on_stop, on_accept, on_update}

-- OnRegularSchedule only logs.
unfoldable pub agent_hooks :
    Lzo → Driver → (ℕ → List ℕ) → Bool → Bool → Bool → Hooks AgentServer (ℕ × Effect)
agent_hooks lzo driver remote_ip env_ok dbc_ok connect_ok = record {
  on_start = λ srv.
      let (after, ok) = on_start driver env_ok dbc_ok connect_ok srv in
      (after, if ok then pos 0 else negsuc 0);
  on_stop = on_stop;
  on_accept = on_accept;
  on_update = on_update lzo driver remote_ip;
  on_regular_schedule = λ srv. (srv, []);
}
