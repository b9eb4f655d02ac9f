-- ===== src/AgentServer/Dispatch/Progress.antt =====
-- The update tick of servers/agentserver/agent_server.cpp dispatches every message that the flip
-- moved, once each.
use ran_online.Base.{
  ℕ, ◌+◌, ◌≡◌, refl, ◌∙◌, List, [], ◌∷◌, Bool, true, false, not, Option, some, none, arith, length,
  if◌then◌else◌, ltb,
}
use ran_online.MinLzo.{Lzo}
use ran_online.Packet.{Message, payload_size}
use ran_online.MsgManager.{get_msg, msg_queue_insert}
use ran_online.Session.{
  Session, Effect, start_read, start_write, on_msg, shut_socket, on_close, close,
}
use ran_online.CharLobby.{CharInfoLobby}
use ran_online.Odbc.{Driver, OdbcDb}
use ran_online.Servers.{find, change}
use ran_online.AgentServer.{AgentServer, int_field}
use ran_online.AgentServer.Database.{UserInfo, is_positive}
use ran_online.AgentServer.Dispatch.{
  react, react_all, on_session, after_login, user_of, answer_detail, handle_login, handle_char_list,
  handle_char_detail, handle_passcheck, handle, handle_of, dispatch,
}
use ran_online.AgentServer.Lifecycle.{dispatch_all, dispatch_one, then_more}

-- The messages still to be dispatched, and the number of those dispatched.
Same : AgentServer → AgentServer → Type 0
Same srv after = (after.recv_msgs.back ≡ srv.recv_msgs.back) × (after.processed ≡ srv.processed)

same :
    (srv after : AgentServer)
    → after.recv_msgs.back ≡ srv.recv_msgs.back
    → after.processed ≡ srv.processed
    → Same srv after
unfolding Same
same srv after h k = (h, k)

-- Of a handler's result.
Keeps {ℓ} : {B : Type ℓ} → AgentServer → AgentServer × B → Type 0
Keeps srv r = Same srv r.0

then-Same : (a b c : AgentServer) → Same a b → Same b c → Same a c
unfolding Same
then-Same a b c h k = (k.0 ∙ h.0, k.1 ∙ h.1)

if-Keeps {ℓ} :
    {B : Type ℓ} (srv : AgentServer) (b : Bool) (x y : AgentServer × B)
    → Keeps srv x
    → Keeps srv y
    → Keeps srv (if b then x else y)
if-Keeps srv true x y h k = h
if-Keeps srv false x y h k = k

react-Same : (e : Effect) (srv : AgentServer) → Same srv (react e srv)
unfolding react msg_queue_insert
react-Same (on_msg m) srv = same srv _ refl refl
react-Same (on_close id) srv = same srv _ refl refl
react-Same start_read srv = same srv _ refl refl
react-Same (start_write packet) srv = same srv _ refl refl
react-Same shut_socket srv = same srv _ refl refl

react_all-Same : (effects : List Effect) (srv : AgentServer) → Same srv (react_all effects srv)
unfolding react_all
react_all-Same [] srv = same srv srv refl refl
react_all-Same (e ∷ effects) srv =
    then-Same srv (react e srv) (react_all effects (react e srv)) (react-Same e srv)
      (react_all-Same effects (react e srv))

on_session-Keeps :
    (id : ℕ) (r : Session × List Effect) (srv before : AgentServer)
    → Same before srv
    → Keeps before (on_session id r srv)
unfolding on_session Keeps
on_session-Keeps id (s, effects) srv before h =
    let held : AgentServer = record srv {
      sessions = change (λ (old : Session). s) id srv.sessions;
    } in
    then-Same before srv _ h
      (then-Same srv held _ (same srv held refl refl) (react_all-Same effects held))

after_login-Keeps :
    (id : ℕ) (r : OdbcDb × (ℕ × Option UserInfo)) (srv : AgentServer)
    → Keeps srv (after_login id r srv)
unfolding after_login Keeps
after_login-Keeps id (db, (err_code, none)) srv = same srv _ refl refl
after_login-Keeps id (db, (err_code, some user)) srv = same srv _ refl refl

answer_detail-Keeps :
    (lzo : Lzo) (id : ℕ) (r : OdbcDb × Option CharInfoLobby) (s : Session) (srv : AgentServer)
    → Keeps srv (answer_detail lzo id r s srv)
unfolding answer_detail Keeps
answer_detail-Keeps lzo id (db, none) s srv = same srv _ refl refl
answer_detail-Keeps lzo id (db, some detail) s srv =
    on_session-Keeps id _ (record srv { db = db }) srv (same srv _ refl refl)

first {ℓ} : {B : Type ℓ} (srv : AgentServer) (r : AgentServer × B) → Keeps srv r → Same srv r.0
unfolding Keeps
first srv r h = h

nothing {ℓ} : {B : Type ℓ} (srv : AgentServer) (b : B) → Keeps srv (srv, b)
unfolding Keeps
nothing srv b = same srv srv refl refl

module _ (lzo : Lzo) (driver : Driver) (msg : Message) (s : Session) (srv : AgentServer) where
  unchanged : Same srv srv
  unchanged = same srv srv refl refl

  handle_login-Keeps : (ip : List ℕ) → Keeps srv (handle_login lzo driver ip msg s srv)
  unfolding handle_login
  handle_login-Keeps ip = if-Keeps srv _ _ _ (on_session-Keeps msg.client_id _ srv srv unchanged) (
      on_session-Keeps msg.client_id _ _ srv
        (first srv _ (if-Keeps srv _ _ _ (after_login-Keeps msg.client_id _ srv) (nothing srv _))))

  handle_char_list-Keeps : Keeps srv (handle_char_list lzo driver msg s srv)
  unfolding handle_char_list
  handle_char_list-Keeps =
      if-Keeps srv _ _ _ (on_session-Keeps msg.client_id _ _ srv (same srv _ refl refl))
        (on_session-Keeps msg.client_id _ srv srv unchanged)

  handle_char_detail-Keeps : Keeps srv (handle_char_detail lzo driver msg s srv)
  unfolding handle_char_detail
  handle_char_detail-Keeps = if-Keeps srv (ltb (payload_size msg) 4) _ _ (nothing srv []) (
      if-Keeps srv (not (is_positive (int_field 8 msg.bytes))) _ _ (nothing srv []) (
        if-Keeps srv (not (is_positive (user_of msg.client_id srv))) _ _
          (on_session-Keeps msg.client_id (close s) srv srv unchanged)
          (answer_detail-Keeps lzo msg.client_id _ s srv)))

  handle_passcheck-Keeps : Keeps srv (handle_passcheck lzo driver msg s srv)
  unfolding handle_passcheck
  handle_passcheck-Keeps = if-Keeps srv _ _ _ (nothing srv []) (
      if-Keeps srv _ _ _ (nothing srv [])
        (on_session-Keeps msg.client_id _ _ srv (same srv _ refl refl)))

  handle-Keeps : (ip : List ℕ) → Keeps srv (handle lzo driver ip msg s srv)
  unfolding handle
  handle-Keeps ip = if-Keeps srv _ _ _ (handle_login-Keeps ip) (
      if-Keeps srv _ _ _ handle_char_list-Keeps (
        if-Keeps srv _ _ _ handle_char_detail-Keeps (
          if-Keeps srv _ _ _ handle_passcheck-Keeps
            (on_session-Keeps msg.client_id _ srv srv unchanged))))

handle_of-Keeps :
    (lzo : Lzo) (driver : Driver) (ip : List ℕ) (msg : Message) (s : Option Session)
    (srv : AgentServer)
    → Keeps srv (handle_of lzo driver ip msg s srv)
unfolding handle_of
handle_of-Keeps lzo driver ip msg none srv = nothing srv []
handle_of-Keeps lzo driver ip msg (some s) srv = handle-Keeps lzo driver msg s srv ip

-- One message: it is counted, and the others wait on.
dispatch-back :
    (lzo : Lzo) (driver : Driver) (ip : List ℕ) (msg : Message) (srv : AgentServer)
    → ((dispatch lzo driver ip msg srv).0.recv_msgs.back ≡ srv.recv_msgs.back)
      × ((dispatch lzo driver ip msg srv).0.processed ≡ srv.processed + 1)
unfolding dispatch Keeps Same
dispatch-back lzo driver ip msg srv =
    handle_of-Keeps lzo driver ip msg (find msg.client_id srv.sessions)
      (record srv { processed = srv.processed + 1 })

-- The dispatch loop of a tick, with as much fuel as messages wait, empties the queue that the
-- flip left and counts each of its messages once, whatever the handlers do to the sessions
-- meanwhile.
pub dispatch_all-drains :
    (lzo : Lzo) (driver : Driver) (remote_ip : ℕ → List ℕ) (waiting : List Message)
    (srv : AgentServer)
    → srv.recv_msgs.back ≡ waiting
    → ((dispatch_all lzo driver remote_ip (length waiting) srv).0.recv_msgs.back ≡ [])
      × ((dispatch_all lzo driver remote_ip (length waiting) srv).0.processed
          ≡ srv.processed + length waiting)
unfolding dispatch_all dispatch_one then_more get_msg
dispatch_all-drains lzo driver remote_ip [] srv h = (h, omega arith)
dispatch_all-drains lzo driver remote_ip (msg ∷ waiting) srv h =
    let next : AgentServer = record srv {
      recv_msgs = record { front = srv.recv_msgs.front; back = waiting };
    } in
    let one = dispatch-back lzo driver (remote_ip msg.client_id) msg next in
    let later =
      dispatch_all-drains lzo driver remote_ip waiting
        (dispatch lzo driver (remote_ip msg.client_id) msg next).0 one.0 in
    simp h (later.0, omega (arith, later.1, one.1))
