-- ===== src/AgentServer/Gateway/Logins.antt =====
-- The login of one client, over the messages that servers/agentserver/agent_server.cpp dispatches.
pub mod Handlers
use ran_online.Base.{
  ℕ, ◌+◌, ◌≡◌, refl, subst, sym, ◌∙◌, ap, List, [], Bool, true, false, not, Option, some, none,
  arith, if◌then◌else◌, ltb, ◌==◌, inl, inr, Option-cases, Bool-cases,
}
use ran_online.Base.Int.{ℤ, pos, negsuc}
use ran_online.MinLzo.{Lzo}
use ran_online.Packet.{Message, payload, payload_size, encode_message}
use ran_online.Session.{Session, Effect, close, send}
use ran_online.Session.Own.{close-Own, send-Own, Own}
use ran_online.CharLobby.{CharInfoLobby}
use ran_online.Odbc.{Driver, OdbcDb}
use ran_online.Servers.{find, assign, change}
use ran_online.Servers.Tables.{find-assign_if, find-change_if}
use ran_online.AgentServer.{
  AgentServer, LoginSession, idn_net_msg_login, daum_net_msg_passcheck, usr_id_length,
  md5_max_length, net_msg_req_cha_bainfo, net_msg_req_cha_binfo_ca, text_field, int_field,
  fb_incorrect,
}
use ran_online.AgentServer.Database.{UserInfo, is_positive, process_user_login, process_pass_check}
use ran_online.AgentServer.Dispatch.{
  on_session, after_login, user_of, answer_detail, handle_login, handle_char_list, is_valid_name,
  handle_char_detail, handle_passcheck, handle, handle_of, dispatch, clear_pending, pending_pass,
  pass_answer, pending_of,
}
use ran_online.AgentServer.Gateway.Tables.{
  Tables, same-Tables, then-Tables, on_session-logins, on_session-Tables,
}

-- How a message may move the login of the client `j`, by the tables and the database before it: the
-- link ends, a login is granted, or the PIN that is pending is accepted.
pub data Move (driver : Driver) (remote_ip : List ℕ) (msg : Message) (j : ℕ) (srv : AgentServer)
    : Option LoginSession → Type 0 where
  stays : Move driver remote_ip msg j srv (find j srv.login_sessions)
  leaves : msg.client_id ≡ j → Move driver remote_ip msg j srv none
  logs_in :
      (db : OdbcDb) (err_code : ℕ) (user : UserInfo)
      → msg.client_id ≡ j
      → msg.type ≡ idn_net_msg_login
      → is_valid_name (text_field 12 usr_id_length msg.bytes) ≡ true
      → process_user_login driver
          (text_field 12 usr_id_length msg.bytes)
          (text_field 33 md5_max_length msg.bytes)
          remote_ip
          srv.db
        ≡ (db, (err_code, some user))
      → Move driver remote_ip msg j srv (
          some (record {
            user_num = user.user_num;
            user_type = user.user_type;
            use_2nd_pass = pending_pass err_code;
          }))
  passes :
      (l : LoginSession)
      → msg.client_id ≡ j
      → msg.type ≡ daum_net_msg_passcheck
      → find j srv.login_sessions ≡ some l
      → (l.use_2nd_pass == 0) ≡ false
      → srv.db_ready ≡ true
      → (process_pass_check driver
          (text_field 8 20 msg.bytes)
          (text_field 29 20 msg.bytes)
          (int_field 52 msg.bytes)
          srv.db).1
        ≡ some (pos 0)
      → Move driver remote_ip msg j srv (some (record l { use_2nd_pass = 0 }))

module _ (driver : Driver) (remote_ip : List ℕ) (msg : Message) (j : ℕ) (srv : AgentServer) where
  unfoldable pub Moved {ℓ} : {B : Type ℓ} → AgentServer × B → Type 0
  Moved r = Move driver remote_ip msg j srv (find j r.0.login_sessions) × Tables j srv r.0

  pub if-Moved {ℓ} :
      {B : Type ℓ} (b : Bool) (x y : AgentServer × B)
      → (b ≡ true → Moved x)
      → (b ≡ false → Moved y)
      → Moved (if b then x else y)
  if-Moved true x y h k = h refl
  if-Moved false x y h k = k refl

  -- A call that changes no login and no session.
  pub still :
      (after : AgentServer)
      → after.sessions ≡ srv.sessions
      → after.login_sessions ≡ srv.login_sessions
      → Move driver remote_ip msg j srv (find j after.login_sessions) × Tables j srv after
  still after sessions logins = (
    subst (λ t. Move driver remote_ip msg j srv (find j t)) (sym logins) Move.stays,
    same-Tables j srv after sessions,
  )

  module _ (lzo : Lzo) (s : Session) (same : s.client_id ≡ msg.client_id) where
    -- A call on the session of the client behind such a move.
    pub call-Moved :
        (r : Session × List Effect) (before : AgentServer)
        → Own s.client_id s.closed r
        → Move driver remote_ip msg j srv (find j before.login_sessions) × Tables j srv before
        → Moved (on_session msg.client_id r before)
    unfolding Moved
    call-Moved r before own (moved, tables) =
        let after = (on_session msg.client_id r before).0 in
        let told = on_session-Tables j msg.client_id s r before same own in
        elim (on_session-logins j msg.client_id s r before same own) [
          | inl kept ↦ (
            subst (Move driver remote_ip msg j srv) (sym kept) moved,
            then-Tables j srv before after tables told (λ e. kept ∙ e),
          )
          | inr (e, gone) ↦ (
            subst (Move driver remote_ip msg j srv) (sym gone) (Move.leaves e),
            then-Tables j srv before after tables told (λ e. gone),
          )
        ]

    pub shut-Moved : Moved (on_session msg.client_id (close s) srv)
    shut-Moved = call-Moved (close s) srv (close-Own s) (still srv refl refl)
