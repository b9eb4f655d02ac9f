-- ===== src/AuthServer/Lifecycle.antt =====
-- Start, stop, accept, the completion of a read, and the update tick of
-- servers/authserver/auth_server.cpp.
use ran_online.Base.{
  ℕ, zero, suc, ◌+◌, ◌%◌, ◌^◌, List, [], ◌++◌, Bool, true, false, Option, some, none,
}
use ran_online.Base.{length, if◌then◌else◌, ◌==◌, codes}
use ran_online.MinLzo.{Lzo}
use ran_online.Packet.{Message}
use ran_online.MsgManager.{MsgManager, msg_queue_flip, get_msg, back_count}
use ran_online.Session.{Session, Effect, new_session, do_read, read_done, write_done}
use ran_online.AuthCrypto.Rc5.{Shifts}
use ran_online.Odbc.{Driver, OdbcDb}
use ran_online.Odbc.Results.{open_connection, is_opened, execute}
use ran_online.Odbc.Results
use ran_online.Servers.{assign, find, of_client, flush_sessions}
use ran_online.AuthServer.{AuthServer, dispatch, on_session, react_all}

unfoldable pub probe : Driver → OdbcDb × Bool → AuthServer → AuthServer × Bool
probe driver (db, false) srv = (record srv { db = db }, false)
probe driver (db, true) srv =
    let (db1, done) = execute driver (codes "SELECT TOP 1 name FROM sys.tables ORDER BY name") db in
    (record srv { db = db1; db_ready = if done then true else srv.db_ready }, done)

-- The answers of the driver to `Open`; `false` is the result -1.
unfoldable pub on_start : Driver → Bool → Bool → Bool → AuthServer → AuthServer × Bool
unfolding probe
on_start driver env_ok dbc_ok connect_ok srv =
    if length srv.db_conn == 0
    then (srv, true)
    else probe driver (open_connection env_ok dbc_ok connect_ok srv.db) srv

unfoldable pub on_stop : AuthServer → AuthServer
on_stop srv = if is_opened srv.db then record srv { db = Results.close srv.db } else srv

unfoldable pub on_accept : AuthServer → AuthServer × List (ℕ × Effect)
on_accept srv =
    let client_id = (srv.next_client_id + 1) % 2 ^ 32 in
    let (s, effects) = do_read (new_session client_id) in
    (
      record srv {
        next_client_id = client_id;
        accepted = srv.accepted + 1;
        sessions = assign client_id s srv.sessions;
      },
      of_client client_id effects,
    )

-- A message of the queue, if there is one, then the rest of the loop.
unfoldable pub dispatch_then :
    Shifts
    → Lzo
    → Driver
    → (AuthServer → AuthServer × List (ℕ × Effect))
    → MsgManager × Option Message
    → AuthServer
    → AuthServer × List (ℕ × Effect)
dispatch_then m lzo driver more (queue, none) srv = (record srv { recv_msgs = queue }, [])
dispatch_then m lzo driver more (queue, some msg) srv =
    let (srv1, effects1) = dispatch m lzo driver msg (record srv { recv_msgs = queue }) in
    let (srv2, effects2) = more srv1 in (srv2, effects1 ++ effects2)

-- `while (GetMsg(msg)) dispatch(msg)`, at most `fuel` messages.
unfoldable pub dispatch_all :
    Shifts → Lzo → Driver → ℕ → AuthServer → AuthServer × List (ℕ × Effect)
unfolding dispatch_then
dispatch_all m lzo driver zero srv = (srv, [])
dispatch_all m lzo driver (suc fuel) srv =
    dispatch_then m lzo driver (dispatch_all m lzo driver fuel) (get_msg srv.recv_msgs) srv

-- The queue that the flip leaves bounds the messages of the tick.
unfoldable pub on_update : Shifts → Lzo → Driver → AuthServer → AuthServer × List (ℕ × Effect)
on_update m lzo driver srv =
    let queue = msg_queue_flip srv.recv_msgs in
    let (srv1, effects1) =
      dispatch_all m lzo driver (back_count queue)
        (record srv { updates = srv.updates + 1; recv_msgs = queue }) in
    let (sessions, effects2) = flush_sessions lzo srv1.sessions in
    (record srv1 { sessions = sessions }, effects1 ++ effects2)

unfoldable pub read_on :
    Lzo → ℕ → Bool → List ℕ → Option Session → AuthServer → AuthServer × List (ℕ × Effect)
read_on lzo id ec chunk none srv = (srv, [])
read_on lzo id ec chunk (some s) srv = on_session id (read_done lzo ec chunk s) srv

-- The completion of a read on the session of a client, which the table holds.
unfoldable pub on_read : Lzo → ℕ → Bool → List ℕ → AuthServer → AuthServer × List (ℕ × Effect)
unfolding read_on
on_read lzo id ec chunk srv = read_on lzo id ec chunk (find id srv.sessions) srv

-- The completion of a read on a session that has left the table: its handler still holds it.
unfoldable pub on_late_read :
    Lzo → Session → Bool → List ℕ → AuthServer → AuthServer × List (ℕ × Effect)
on_late_read lzo s ec chunk srv =
    let (t, effects) = read_done lzo ec chunk s in
    (react_all effects srv, of_client s.client_id effects)

unfoldable pub written :
    ℕ → Option (Session × List Effect) → AuthServer → Option (AuthServer × List (ℕ × Effect))
written id none srv = none
written id (some r) srv = some (on_session id r srv)

unfoldable pub write_on :
    ℕ → Bool → Option Session → AuthServer → Option (AuthServer × List (ℕ × Effect))
unfolding written
write_on id ec none srv = some (srv, [])
write_on id ec (some s) srv = written id (write_done ec s) srv

-- The completion of a write on the session of a client. `none` is undefined behaviour.
unfoldable pub on_write : ℕ → Bool → AuthServer → Option (AuthServer × List (ℕ × Effect))
unfolding write_on
on_write id ec srv = write_on id ec (find id srv.sessions) srv
