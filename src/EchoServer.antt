-- ===== src/EchoServer.antt =====
-- The servers without handlers of their own: servers/loginserver/login_server.{h,cpp}, and
-- servers/sessionserver/ and servers/fieldserver/, whose methods have the same code up to what they
-- log. Logging is left out.
use ran_online.Base.{
  ℕ, zero, suc, ◌+◌, ◌%◌, ◌^◌, List, [], ◌∷◌, ◌++◌, Bool, true, false, Option, some, none,
}
use ran_online.Base.{length, if◌then◌else◌, ◌==◌, codes}
use ran_online.Base.Int.{ℤ, pos, negsuc}
use ran_online.MinLzo.{Lzo}
use ran_online.Packet.{Message, payload, encode_message}
use ran_online.MsgManager.{MsgManager, msg_queue_insert, msg_queue_flip, get_msg, back_count}
use ran_online.Session.{
  Session, Effect, start_read, start_write, on_msg, shut_socket, on_close, new_session, do_read,
  send, read_done, write_done,
}
use ran_online.Odbc.{Driver, OdbcDb}
use ran_online.Odbc.Results.{open_connection, is_opened, execute}
use ran_online.Odbc.Results
use ran_online.Servers.{find, assign, change, erase, of_client}
use ran_online.NetServer.{Hooks}

pub record EchoServer : Type 0 where
  pub db_conn : List ℕ
  pub db : OdbcDb
  pub db_ready : Bool
  pub accepted : ℕ
  pub updates : ℕ
  pub processed : ℕ
  pub recv_msgs : MsgManager
  pub next_client_id : ℕ
  pub sessions : List (ℕ × Session)

unfoldable pub probe : Driver → OdbcDb × Bool → EchoServer → EchoServer × ℤ
probe driver (db, false) srv = (record srv { db = db }, negsuc 0)
probe driver (db, true) srv =
    let (db1, done) = execute driver (codes "SELECT TOP 1 name FROM sys.tables ORDER BY name") db in
    if done
    then (record srv { db = db1; db_ready = true }, pos 0)
    else (record srv { db = db1 }, negsuc 0)

-- With the driver's answers to `Open`.
unfoldable pub on_start : Driver → Bool → Bool → Bool → EchoServer → EchoServer × ℤ
unfolding probe
on_start driver env_ok dbc_ok connect_ok srv =
    if length srv.db_conn == 0
    then (srv, pos 0)
    else probe driver (open_connection env_ok dbc_ok connect_ok srv.db) srv

unfoldable pub on_stop : EchoServer → EchoServer
on_stop srv = if is_opened srv.db then record srv { db = Results.close srv.db } else srv

unfoldable pub on_accept : EchoServer → EchoServer × List (ℕ × Effect)
on_accept srv =
    let client_id = (srv.next_client_id + 1) % 2 ^ 32 in
    let (s, effects) = do_read (new_session client_id) in
    (
      record srv {
        next_client_id = client_id;
        accepted = srv.accepted + 1;
        sessions = assign client_id s srv.sessions;
      },
      of_client client_id effects,
    )

-- The handlers given to a session.
unfoldable pub react : Effect → EchoServer → EchoServer
react (on_msg m) srv = record srv { recv_msgs = msg_queue_insert m srv.recv_msgs }
react (on_close id) srv = record srv { sessions = erase id srv.sessions }
react start_read srv = srv
react (start_write packet) srv = srv
react shut_socket srv = srv

unfoldable pub react_all : List Effect → EchoServer → EchoServer
unfolding react
react_all [] srv = srv
react_all (e ∷ effects) srv = react_all effects (react e srv)

unfoldable pub on_session : ℕ → Session × List Effect → EchoServer → EchoServer × List (ℕ × Effect)
unfolding react_all
on_session id (s, effects) srv =
    let held = record srv { sessions = change (λ (old : Session). s) id srv.sessions } in
    (react_all effects held, of_client id effects)

unfoldable echo_to : Lzo → Message → Option Session → EchoServer → EchoServer × List (ℕ × Effect)
unfolding on_session
echo_to lzo msg none srv = (srv, [])
echo_to lzo msg (some s) srv =
    on_session msg.client_id (send lzo (encode_message msg.type (payload msg)) s) srv

-- The source looks the session up in a guarded block and sends behind it; here both are one step.
unfoldable pub dispatch : Lzo → Message → EchoServer → EchoServer × List (ℕ × Effect)
unfolding echo_to
dispatch lzo msg srv =
    echo_to lzo msg (find msg.client_id srv.sessions) (record srv { processed = srv.processed + 1 })

unfoldable pub dispatch_then :
    Lzo
    → (EchoServer → EchoServer × List (ℕ × Effect))
    → MsgManager × Option Message
    → EchoServer
    → EchoServer × List (ℕ × Effect)
unfolding dispatch
dispatch_then lzo more (queue, none) srv = (record srv { recv_msgs = queue }, [])
dispatch_then lzo more (queue, some msg) srv =
    let (srv1, effects1) = dispatch lzo msg (record srv { recv_msgs = queue }) in
    let (srv2, effects2) = more srv1 in (srv2, effects1 ++ effects2)

-- `while (GetMsg(msg)) dispatch(msg)`, at most `fuel` messages.
unfoldable pub dispatch_all : Lzo → ℕ → EchoServer → EchoServer × List (ℕ × Effect)
unfolding dispatch_then
dispatch_all lzo zero srv = (srv, [])
dispatch_all lzo (suc fuel) srv =
    dispatch_then lzo (dispatch_all lzo fuel) (get_msg srv.recv_msgs) srv

-- The queue that the flip leaves bounds the messages of the tick. The sessions are not flushed.
unfoldable pub on_update : Lzo → EchoServer → EchoServer × List (ℕ × Effect)
unfolding dispatch_all
on_update lzo srv =
    let queue = msg_queue_flip srv.recv_msgs in
    dispatch_all lzo (back_count queue)
      (record srv { updates = srv.updates + 1; recv_msgs = queue })

unfoldable pub on_regular_schedule : EchoServer → EchoServer × List (ℕ × Effect)
on_regular_schedule srv = (srv, [])

-- The virtual methods of the three classes.
module _ (lzo : Lzo) (driver : Driver) (env_ok dbc_ok connect_ok : Bool) where
  unfoldable pub login_server : Hooks EchoServer (ℕ × Effect)
  login_server = record {
    on_start = on_start driver env_ok dbc_ok connect_ok;
    on_stop = on_stop;
    on_accept = on_accept;
    on_update = on_update lzo;
    on_regular_schedule = on_regular_schedule;
  }

  unfoldable pub session_server : Hooks EchoServer (ℕ × Effect)
  session_server = record {
    on_start = on_start driver env_ok dbc_ok connect_ok;
    on_stop = on_stop;
    on_accept = on_accept;
    on_update = on_update lzo;
    on_regular_schedule = on_regular_schedule;
  }

  unfoldable pub field_server : Hooks EchoServer (ℕ × Effect)
  field_server = record {
    on_start = on_start driver env_ok dbc_ok connect_ok;
    on_stop = on_stop;
    on_accept = on_accept;
    on_update = on_update lzo;
    on_regular_schedule = on_regular_schedule;
  }

unfoldable pub read_on :
    Lzo → ℕ → Bool → List ℕ → Option Session → EchoServer → EchoServer × List (ℕ × Effect)
read_on lzo id ec chunk none srv = (srv, [])
read_on lzo id ec chunk (some s) srv = on_session id (read_done lzo ec chunk s) srv

-- The completion of a read on the session of a client.
unfoldable pub on_read : Lzo → ℕ → Bool → List ℕ → EchoServer → EchoServer × List (ℕ × Effect)
unfolding read_on
on_read lzo id ec chunk srv = read_on lzo id ec chunk (find id srv.sessions) srv

-- The completion of a read on a session that has left the table: its handler still holds it.
unfoldable pub on_late_read :
    Lzo → Session → Bool → List ℕ → EchoServer → EchoServer × List (ℕ × Effect)
unfolding react_all
on_late_read lzo s ec chunk srv =
    let (t, effects) = read_done lzo ec chunk s in
    (react_all effects srv, of_client s.client_id effects)

unfoldable pub written :
    ℕ → Option (Session × List Effect) → EchoServer → Option (EchoServer × List (ℕ × Effect))
written id none srv = none
written id (some r) srv = some (on_session id r srv)

unfoldable pub write_on :
    ℕ → Bool → Option Session → EchoServer → Option (EchoServer × List (ℕ × Effect))
unfolding written
write_on id ec none srv = some (srv, [])
write_on id ec (some s) srv = written id (write_done ec s) srv

-- The completion of a write on the session of a client. `none` is undefined behaviour.
unfoldable pub on_write : ℕ → Bool → EchoServer → Option (EchoServer × List (ℕ × Effect))
unfolding write_on
on_write id ec srv = write_on id ec (find id srv.sessions) srv
