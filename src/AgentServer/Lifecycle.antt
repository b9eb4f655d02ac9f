-- ===== src/AgentServer/Lifecycle.antt =====
-- Start, stop, accept, the completion of a read, and the update tick of
-- servers/agentserver/agent_server.cpp.
use ran_online.Base.{
  ℕ, zero, suc, ◌+◌, ◌%◌, ◌^◌, List, [], ◌++◌, Bool, true, false, Option, some, none,
}
use ran_online.Base.{length, if◌then◌else◌, ◌==◌, codes}
use ran_online.MinLzo.{Lzo}
use ran_online.Packet.{Message}
use ran_online.MsgManager.{MsgManager, msg_queue_flip, get_msg, back_count}
use ran_online.Session.{Session, Effect, new_session, do_read, read_done, write_done}
use ran_online.Odbc.{Driver, OdbcDb}
use ran_online.Odbc.Results.{open_connection, is_opened, execute}
use ran_online.Odbc.Results
use ran_online.Servers.{assign, find, of_client, flush_sessions}
use ran_online.AgentServer.{AgentServer}
use ran_online.AgentServer.Dispatch.{dispatch, on_session, react_all}

unfoldable pub start_db : Driver → OdbcDb × Bool → AgentServer → AgentServer × Bool
start_db driver (db, false) srv = (record srv { db = db }, false)
start_db driver (db, true) srv =
    let (db1, done) = execute driver (codes "SELECT TOP 1 name FROM sys.tables ORDER BY name") db in
    if done
    then (record srv { db = db1; db_ready = true }, true)
    else (record srv { db = db1 }, false)

-- The answers of the driver to `Open`; `false` is the result -1.
unfoldable pub on_start : Driver → Bool → Bool → Bool → AgentServer → AgentServer × Bool
unfolding start_db
on_start driver env_ok dbc_ok connect_ok srv =
    if length srv.db_conn == 0
    then (srv, true)
    else start_db driver (open_connection env_ok dbc_ok connect_ok srv.db) srv

unfoldable pub on_stop : AgentServer → AgentServer
on_stop srv = if is_opened srv.db then record srv { db = Results.close srv.db } else srv

unfoldable pub on_accept : AgentServer → AgentServer × List (ℕ × Effect)
on_accept srv =
    let client_id = (srv.next_client_id + 1) % 2 ^ 32 in
    let (s, effects) = do_read (new_session client_id) in
    (
      record srv {
        next_client_id = client_id;
        accepted = srv.accepted + 1;
        sessions = assign client_id s srv.sessions;
      },
      of_client client_id effects,
    )

unfoldable pub then_more :
    (AgentServer → AgentServer × List (ℕ × Effect))
    → AgentServer × List (ℕ × Effect)
    → AgentServer × List (ℕ × Effect)
then_more more (srv, effects) = let (srv2, effects2) = more srv in (srv2, effects ++ effects2)

unfoldable pub dispatch_one :
    Lzo
    → Driver
    → (ℕ → List ℕ)
    → (AgentServer → AgentServer × List (ℕ × Effect))
    → MsgManager × Option Message
    → AgentServer
    → AgentServer × List (ℕ × Effect)
unfolding then_more
dispatch_one lzo driver remote_ip more (queue, none) srv = (record srv { recv_msgs = queue }, [])
dispatch_one lzo driver remote_ip more (queue, some msg) srv =
    then_more more
      (dispatch lzo driver (remote_ip msg.client_id) msg (record srv { recv_msgs = queue }))

-- `while (GetMsg(msg)) dispatch(msg)`, at most `fuel` messages.
unfoldable pub dispatch_all :
    Lzo → Driver → (ℕ → List ℕ) → ℕ → AgentServer → AgentServer × List (ℕ × Effect)
unfolding dispatch_one
dispatch_all lzo driver remote_ip zero srv = (srv, [])
dispatch_all lzo driver remote_ip (suc fuel) srv =
    dispatch_one lzo driver remote_ip (dispatch_all lzo driver remote_ip fuel)
      (get_msg srv.recv_msgs) srv

-- The queue that the flip leaves bounds the messages of the tick.
unfoldable pub on_update :
    Lzo → Driver → (ℕ → List ℕ) → AgentServer → AgentServer × List (ℕ × Effect)
on_update lzo driver remote_ip srv =
    let queue = msg_queue_flip srv.recv_msgs in
    let (srv1, effects1) =
      dispatch_all lzo driver remote_ip (back_count queue)
        (record srv { updates = srv.updates + 1; recv_msgs = queue }) in
    let (sessions, effects2) = flush_sessions lzo srv1.sessions in
    (record srv1 { sessions = sessions }, effects1 ++ effects2)

unfoldable pub read_on :
    Lzo → ℕ → Bool → List ℕ → Option Session → AgentServer → AgentServer × List (ℕ × Effect)
read_on lzo id ec chunk none srv = (srv, [])
read_on lzo id ec chunk (some s) srv = on_session id (read_done lzo ec chunk s) srv

-- The completion of a read on the session of a client, which the tables hold.
unfoldable pub on_read : Lzo → ℕ → Bool → List ℕ → AgentServer → AgentServer × List (ℕ × Effect)
unfolding read_on
on_read lzo id ec chunk srv = read_on lzo id ec chunk (find id srv.sessions) srv

-- The completion of a read on a session that has left the tables: its handler still holds it.
unfoldable pub on_late_read :
    Lzo → Session → Bool → List ℕ → AgentServer → AgentServer × List (ℕ × Effect)
on_late_read lzo s ec chunk srv =
    let (t, effects) = read_done lzo ec chunk s in
    (react_all effects srv, of_client s.client_id effects)

unfoldable pub written :
    ℕ → Option (Session × List Effect) → AgentServer → Option (AgentServer × List (ℕ × Effect))
written id none srv = none
written id (some r) srv = some (on_session id r srv)

unfoldable pub write_on :
    ℕ → Bool → Option Session → AgentServer → Option (AgentServer × List (ℕ × Effect))
unfolding written
write_on id ec none srv = some (srv, [])
write_on id ec (some s) srv = written id (write_done ec s) srv

-- The completion of a write on the session of a client, which the tables hold; `none` is undefined
-- behaviour. On a session that has left them it makes no call of the server, and is undefined where
-- it has no error, since the queue was emptied.
unfoldable pub on_write : ℕ → Bool → AgentServer → Option (AgentServer × List (ℕ × Effect))
unfolding write_on
on_write id ec srv = write_on id ec (find id srv.sessions) srv
