-- ===== src/AgentServer/Dispatch.antt =====
-- AgentServer::dispatch of servers/agentserver/agent_server.cpp, one function for each message
-- type. A handler runs without interleaving; the calls that a session makes on the server while it
-- runs, its close handler among them, are applied to the tables.
pub mod Access
pub mod Progress
use ran_online.Base.{
  ℕ, zero, suc, ◌+◌, ◌-◌, ◌*◌, ◌/◌, ◌%◌, ◌^◌, List, [], ◌∷◌, ◌++◌, Bool, true, false, not, ◌&&◌,
  ◌||◌, Option, some, none,
}
use ran_online.Base.{length, take, drop, if◌then◌else◌, ltb, leb, ◌==◌}
use ran_online.Base.Int.{ℤ, pos, negsuc, to_word}
use ran_online.MinLzo.{Lzo}
use ran_online.Packet.{Message, payload, payload_size, encode_message, write_le32}
use ran_online.MsgManager.{MsgManager, msg_queue_insert}
use ran_online.Session.{
  Session, Effect, start_read, start_write, on_msg, shut_socket, on_close, send, close,
}
use ran_online.CharLobby.{CharInfoLobby, pack_lobby_char_info_ac}
use ran_online.Odbc.{Driver, OdbcDb}
use ran_online.Servers.{find, assign, change, erase, of_client}
use ran_online.AgentServer.{
  AgentServer, LoginSession, idn_net_msg_login, net_msg_login_fb, net_msg_req_cha_binfo_ca,
  net_msg_req_cha_bainfo, net_msg_cha_bainfo_ac, daum_net_msg_passcheck, net_msg_passcheck_fb,
  net_msg_lobby_charinfo_ac, net_msg_lobby_charinfo_ac_end, usr_id_length, md5_max_length, fb_ok,
  fb_fail, fb_incorrect, fb_pass_ok, fb_kr_ok_use_pass, fb_kr_ok_new_pass, text_field, int_field,
  login_feedback, cha_bainfo, passcheck_feedback,
}
use ran_online.AgentServer.Database.{
  UserInfo, is_name_char, process_user_login, process_char_list, process_char_detail,
  process_pass_check, is_positive,
}

-- The handlers given to a session: a message goes to the queue, a closed link leaves the tables.
unfoldable pub react : Effect → AgentServer → AgentServer
react (on_msg m) srv = record srv { recv_msgs = msg_queue_insert m srv.recv_msgs }
react (on_close id) srv = record srv {
  sessions = erase id srv.sessions;
  login_sessions = erase id srv.login_sessions;
}
react start_read srv = srv
react (start_write packet) srv = srv
react shut_socket srv = srv

unfoldable pub react_all : List Effect → AgentServer → AgentServer
react_all [] srv = srv
react_all (e ∷ effects) srv = react_all effects (react e srv)

-- A call on the session object of client `id`, with what it makes of the server.
unfoldable pub on_session :
    ℕ → Session × List Effect → AgentServer → AgentServer × List (ℕ × Effect)
on_session id (s, effects) srv =
    let held = record srv { sessions = change (λ (old : Session). s) id srv.sessions } in
    (react_all effects held, of_client id effects)

unfoldable pub send_two : Lzo → List ℕ → List ℕ → Session → Session × List Effect
send_two lzo first second s =
    let (s1, effects1) = send lzo first s in
    let (s2, effects2) = send lzo second s1 in (s2, effects1 ++ effects2)

unfoldable pub all_name_chars : List ℕ → Bool
all_name_chars [] = true
all_name_chars (c ∷ username) = is_name_char c && all_name_chars username

unfoldable pub is_valid_name : List ℕ → Bool
is_valid_name username =
    not (length username == 0) && (leb (length username) usr_id_length && all_name_chars username)

unfoldable pub pending_pass : ℕ → ℕ
pending_pass err_code =
    if err_code == fb_kr_ok_new_pass then 2 else if err_code == fb_kr_ok_use_pass then 1 else 0

-- What a finished login leaves: the tables, and the answer's `m_Result` and `m_ChaRemain`.
unfoldable pub after_login :
    ℕ → OdbcDb × (ℕ × Option UserInfo) → AgentServer → AgentServer × (ℕ × ℕ)
after_login id (db, (err_code, none)) srv = (record srv { db = db }, (err_code, 0))
after_login id (db, (err_code, some user)) srv = (
  record srv {
    db = db;
    login_sessions =
        assign id
          (record {
            user_num = user.user_num;
            user_type = user.user_type;
            use_2nd_pass = pending_pass err_code;
          })
          srv.login_sessions;
  },
  (err_code, user.cha_remain),
)

unfoldable pub handle_login :
    Lzo → Driver → List ℕ → Message → Session → AgentServer → AgentServer × List (ℕ × Effect)
handle_login lzo driver remote_ip msg s srv =
    let username = text_field 12 usr_id_length msg.bytes in
    let password = text_field 33 md5_max_length msg.bytes in
    let (srv1, (result, cha_remain)) =
      if is_valid_name username
      then after_login msg.client_id (process_user_login driver username password remote_ip srv.db)
          srv
      else (srv, (fb_incorrect, 0)) in
    if ltb (payload_size msg) 60
    then on_session msg.client_id (close s) srv
    else on_session msg.client_id
        (send lzo (encode_message net_msg_login_fb (login_feedback result cha_remain)) s) srv1

-- `userNum` of a client, 0 where it has not logged in.
unfoldable pub user_of : ℕ → AgentServer → ℤ
user_of id srv = elim (find id srv.login_sessions) [ none ↦ pos 0 | some l ↦ l.user_num ]

unfoldable pub handle_char_list :
    Lzo → Driver → Message → Session → AgentServer → AgentServer × List (ℕ × Effect)
handle_char_list lzo driver msg s srv =
    let user_num = user_of msg.client_id srv in
    let (db1, char_nums) =
      if srv.db_ready then process_char_list driver user_num srv.db else (srv.db, []) in
    if is_positive user_num
    then on_session msg.client_id
        (send lzo (encode_message net_msg_cha_bainfo_ac (cha_bainfo char_nums)) s)
        (record srv { db = db1 })
    else on_session msg.client_id (close s) srv

-- The body of the NET_MSG_PACK envelope: the CRC 0, the size and the MessagePack bytes.
unfoldable pub detail_body : CharInfoLobby → List ℕ
detail_body detail =
    let mpbuf = pack_lobby_char_info_ac detail in
    write_le32 0 ++ (write_le32 (length mpbuf % 2 ^ 32) ++ mpbuf)

unfoldable pub answer_detail :
    Lzo
    → ℕ
    → OdbcDb × Option CharInfoLobby
    → Session
    → AgentServer
    → AgentServer × List (ℕ × Effect)
answer_detail lzo id (db, none) s srv = (record srv { db = db }, [])
answer_detail lzo id (db, some detail) s srv =
    on_session id
      (send_two lzo (encode_message net_msg_lobby_charinfo_ac (detail_body detail))
        (encode_message net_msg_lobby_charinfo_ac_end []) s)
      (record srv { db = db })

unfoldable pub handle_char_detail :
    Lzo → Driver → Message → Session → AgentServer → AgentServer × List (ℕ × Effect)
handle_char_detail lzo driver msg s srv =
    let cha_num = int_field 8 msg.bytes in
    let user_num = user_of msg.client_id srv in
    let fetched =
      if srv.db_ready then process_char_detail driver user_num cha_num srv.db else (srv.db, none) in
    if ltb (payload_size msg) 4
    then (srv, [])
    else if not (is_positive cha_num)
    then (srv, [])
    else if not (is_positive user_num)
    then on_session msg.client_id (close s) srv
    else answer_detail lzo msg.client_id fetched s srv

unfoldable pub pending_of : ℕ → AgentServer → ℕ
pending_of id srv = elim (find id srv.login_sessions) [ none ↦ 0 | some l ↦ l.use_2nd_pass ]

unfoldable pub clear_pending : LoginSession → LoginSession
clear_pending l = record l { use_2nd_pass = 0 }

-- The answer to the result of the stored procedure, and whether the PIN is accepted.
unfoldable pub pass_answer : Option ℤ → ℕ × Bool
pass_answer none = (fb_fail, false)
pass_answer (some (pos n)) =
    if n == 0 then (fb_ok, true) else if n == 2 then (fb_pass_ok, false) else (fb_fail, false)
pass_answer (some (negsuc n)) = (fb_fail, false)

unfoldable pub handle_passcheck :
    Lzo → Driver → Message → Session → AgentServer → AgentServer × List (ℕ × Effect)
unfolding clear_pending
handle_passcheck lzo driver msg s srv =
    let id = msg.client_id in
    let user_id = text_field 8 20 msg.bytes in
    let pin = text_field 29 20 msg.bytes in
    let check_flag = int_field 52 msg.bytes in
    let (db1, sp_result) =
      if srv.db_ready
      then process_pass_check driver user_id pin check_flag srv.db
      else (srv.db, none) in
    let (result, accepted) = pass_answer sp_result in
    let login_sessions =
      if accepted then change clear_pending id srv.login_sessions else srv.login_sessions in
    if ltb (payload_size msg) 48
    then (srv, [])
    else if pending_of id srv == 0
    then (srv, [])
    else on_session id
        (send lzo (encode_message net_msg_passcheck_fb (passcheck_feedback id result)) s)
        (record srv { db = db1; login_sessions = login_sessions })

-- Unknown types are echoed.
unfoldable pub handle :
    Lzo → Driver → List ℕ → Message → Session → AgentServer → AgentServer × List (ℕ × Effect)
handle lzo driver remote_ip msg s srv =
    if msg.type == idn_net_msg_login
    then handle_login lzo driver remote_ip msg s srv
    else if msg.type == net_msg_req_cha_bainfo
    then handle_char_list lzo driver msg s srv
    else if msg.type == net_msg_req_cha_binfo_ca
    then handle_char_detail lzo driver msg s srv
    else if msg.type == daum_net_msg_passcheck
    then handle_passcheck lzo driver msg s srv
    else on_session msg.client_id (send lzo (encode_message msg.type (payload msg)) s) srv

unfoldable pub handle_of :
    Lzo → Driver → List ℕ → Message → Option Session → AgentServer → AgentServer × List (ℕ × Effect)
handle_of lzo driver remote_ip msg none srv = (srv, [])
handle_of lzo driver remote_ip msg (some s) srv = handle lzo driver remote_ip msg s srv

unfoldable pub dispatch :
    Lzo → Driver → List ℕ → Message → AgentServer → AgentServer × List (ℕ × Effect)
unfolding handle_of
dispatch lzo driver remote_ip msg srv =
    handle_of lzo driver remote_ip msg (find msg.client_id srv.sessions)
      (record srv { processed = srv.processed + 1 })
