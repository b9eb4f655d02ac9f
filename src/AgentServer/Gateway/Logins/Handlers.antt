-- ===== src/AgentServer/Gateway/Logins/Handlers.antt =====
-- Each handler of servers/agentserver/agent_server.cpp, and the dispatcher, by its moves of a login.
use ran_online.Base.{
  ℕ, ◌≡◌, refl, subst, sym, ◌∙◌, ap, List, Bool, true, false, not, Option, some, none, arith,
  if◌then◌else◌, ltb, ◌==◌, inl, inr, Option-cases, Bool-cases,
}
use ran_online.Base.Int.{ℤ, pos, negsuc}
use ran_online.MinLzo.{Lzo}
use ran_online.Packet.{Message, payload_size}
use ran_online.Session.{Session, Effect, close, send}
use ran_online.Session.Own.{send-Own, append-Own, Own}
use ran_online.CharLobby.{CharInfoLobby}
use ran_online.Odbc.{Driver, OdbcDb}
use ran_online.Servers.{find, assign, change}
use ran_online.Servers.Tables.{find-assign_if, find-change_if}
use ran_online.AgentServer.{
  AgentServer, LoginSession, idn_net_msg_login, daum_net_msg_passcheck, usr_id_length,
  md5_max_length, net_msg_req_cha_bainfo, net_msg_req_cha_binfo_ca, text_field, int_field,
}
use ran_online.AgentServer.Database.{UserInfo, is_positive, process_user_login}
use ran_online.AgentServer.Dispatch.{
  send_two, on_session, after_login, user_of, answer_detail, handle_login, handle_char_list,
  is_valid_name, handle_char_detail, handle_passcheck, handle, clear_pending, pending_pass,
  pass_answer, pending_of,
}
use ran_online.AgentServer.Gateway.Tables.{Tables, same-Tables}
use ran_online.AgentServer.Gateway.Logins.{Move, Moved, if-Moved, call-Moved, shut-Moved, still}

send_two-Own :
    (lzo : Lzo) (first second : List ℕ) (s : Session)
    → Own s.client_id s.closed (send_two lzo first second s)
unfolding send_two
send_two-Own lzo first second s =
    let (s1, effects1) = send lzo first s in
    let (s2, effects2) = send lzo second s1 in
    append-Own s.client_id s.closed s1 s2 effects1 effects2 (send-Own lzo first s)
      (send-Own lzo second s1)

module _ (driver : Driver) (remote_ip : List ℕ) (msg : Message) (j : ℕ) (srv : AgentServer) where
  module _ (lzo : Lzo) (s : Session) (same : s.client_id ≡ msg.client_id) where
    -- The two calls at this message.
    answers :
        (r : Session × List Effect) (before : AgentServer)
        → Own s.client_id s.closed r
        → Move driver remote_ip msg j srv (find j before.login_sessions) × Tables j srv before
        → Moved driver remote_ip msg j srv (on_session msg.client_id r before)
    answers = call-Moved driver remote_ip msg j srv lzo s same

    cuts : Moved driver remote_ip msg j srv (on_session msg.client_id (close s) srv)
    cuts = shut-Moved driver remote_ip msg j srv lzo s same

    unchanged :
        (after : AgentServer)
        → after.sessions ≡ srv.sessions
        → after.login_sessions ≡ srv.login_sessions
        → Move driver remote_ip msg j srv (find j after.login_sessions) × Tables j srv after
    unchanged = still driver remote_ip msg j srv

    Here {ℓ} : {B : Type ℓ} → AgentServer × B → Type 0
    Here = Moved driver remote_ip msg j srv

    handle_char_list-Moved : Here (handle_char_list lzo driver msg s srv)
    unfolding handle_char_list Here
    handle_char_list-Moved =
        if-Moved driver remote_ip msg j srv (is_positive (user_of msg.client_id srv)) _ _
          (λ h. answers _ (record srv { db = _ }) (send-Own lzo _ s) (unchanged _ refl refl))
          (λ h. cuts)

    answer_detail-Moved :
        (r : OdbcDb × Option CharInfoLobby) → Here (answer_detail lzo msg.client_id r s srv)
    unfolding answer_detail Moved Here
    answer_detail-Moved (db, none) = unchanged (record srv { db = db }) refl refl
    answer_detail-Moved (db, some detail) =
        answers _ (record srv { db = db }) (send_two-Own lzo _ _ s) (unchanged _ refl refl)

    handle_char_detail-Moved : Here (handle_char_detail lzo driver msg s srv)
    unfolding handle_char_detail Moved Here
    handle_char_detail-Moved =
        if-Moved driver remote_ip msg j srv (ltb (payload_size msg) 4) _ _
          (λ h. unchanged srv refl refl)
          (λ h.
            if-Moved driver remote_ip msg j srv (not (is_positive (int_field 8 msg.bytes))) _ _
              (λ h. unchanged srv refl refl)
              (λ h.
                if-Moved driver remote_ip msg j srv (not (is_positive (user_of msg.client_id srv)))
                  _ _ (λ h. cuts) (λ h. answer_detail-Moved _)))

    after_login-Moved :
        (r : OdbcDb × (ℕ × Option UserInfo))
        → msg.type ≡ idn_net_msg_login
        → is_valid_name (text_field 12 usr_id_length msg.bytes) ≡ true
        → process_user_login driver
            (text_field 12 usr_id_length msg.bytes)
            (text_field 33 md5_max_length msg.bytes)
            remote_ip
            srv.db
          ≡ r
        → Here (after_login msg.client_id r srv)
    unfolding after_login Moved Here
    after_login-Moved (db, (err_code, none)) t v e = unchanged (record srv { db = db }) refl refl
    after_login-Moved (db, (err_code, some user)) t v e =
        let l : LoginSession = record {
          user_num = user.user_num;
          user_type = user.user_type;
          use_2nd_pass = pending_pass err_code;
        } in
        let logins : List (ℕ × LoginSession) = assign msg.client_id l srv.login_sessions in
        (
          elim (Bool-cases (msg.client_id == j)) [
            | inl mine ↦
                subst (Move driver remote_ip msg j srv)
                  (sym (ground (arith, mine, find-assign_if j msg.client_id l srv.login_sessions)))
                  (Move.logs_in db err_code user (ground arith) t v e)
            | inr other ↦
                subst (Move driver remote_ip msg j srv)
                  (sym (ground (arith, other, find-assign_if j msg.client_id l srv.login_sessions)))
                  Move.stays
          ],
          same-Tables j srv (record srv { db = db; login_sessions = logins }) refl,
        )

    handle_login-Moved :
        msg.type ≡ idn_net_msg_login → Here (handle_login lzo driver remote_ip msg s srv)
    unfolding handle_login Moved Here
    handle_login-Moved t =
        if-Moved driver remote_ip msg j srv (ltb (payload_size msg) 60) _ _ (λ h. cuts)
          (λ h. answers _ _ (send-Own lzo _ s) (
            if-Moved driver remote_ip msg j srv
              (is_valid_name (text_field 12 usr_id_length msg.bytes)) _ _
              (λ v. after_login-Moved _ t v refl) (λ v. unchanged srv refl refl)))

    passcheck_logins :
        (accepted : Bool)
        → (accepted ≡ true
            → (l : LoginSession) → msg.client_id ≡ j
            → find j srv.login_sessions ≡ some l
            → Move driver remote_ip msg j srv (some (record l { use_2nd_pass = 0 })))
        → Move driver remote_ip msg j srv (
            find j (
              if accepted
              then change clear_pending msg.client_id srv.login_sessions
              else srv.login_sessions))
    unfolding clear_pending
    passcheck_logins false h = Move.stays
    passcheck_logins true h =
        let told = find-change_if clear_pending j msg.client_id srv.login_sessions in
        elim (Bool-cases (msg.client_id == j)) [
          | inl mine ↦ elim (Option-cases (find j srv.login_sessions)) [
            | inl none_there ↦
                subst (Move driver remote_ip msg j srv)
                  (none_there ∙ sym (ground (arith, mine, told, none_there))) Move.stays
            | inr (l, there) ↦
                subst (Move driver remote_ip msg j srv) (sym (ground (arith, mine, told, there)))
                  (h refl l (ground arith) there)
          ]
          | inr other ↦
              subst (Move driver remote_ip msg j srv) (sym (ground (arith, other, told))) Move.stays
        ]

    accepted_lem :
        (ready : Bool) (r : OdbcDb × Option ℤ) (db : OdbcDb)
        → (pass_answer (if ready then r else (db, none)).1).1 ≡ true
        → (ready ≡ true) × (r.1 ≡ some (pos 0))
    unfolding pass_answer
    accepted_lem true (_, some (pos n)) db h = (refl, ground arith)
    accepted_lem true (_, some (negsuc n)) db h = cc
    accepted_lem true (_, none) db h = cc
    accepted_lem false r db h = cc

    pending_lem :
        (l : LoginSession)
        → msg.client_id ≡ j
        → find j srv.login_sessions ≡ some l
        → pending_of msg.client_id srv ≡ l.use_2nd_pass
    unfolding pending_of
    pending_lem l mine there =
        rw mine (ap (λ o. elim o [ none ↦ 0 | some m ↦ m.use_2nd_pass ]) there)

    handle_passcheck-Moved :
        msg.type ≡ daum_net_msg_passcheck → Here (handle_passcheck lzo driver msg s srv)
    unfolding handle_passcheck Moved Here
    handle_passcheck-Moved t =
        if-Moved driver remote_ip msg j srv (ltb (payload_size msg) 48) _ _
          (λ h. unchanged srv refl refl)
          (λ h.
            if-Moved driver remote_ip msg j srv (pending_of msg.client_id srv == 0) _ _
              (λ h. unchanged srv refl refl)
              (λ pending. answers _ _ (send-Own lzo _ s) (
                passcheck_logins _ (λ accepted l mine there.
                    let (ready, zero_back) = accepted_lem srv.db_ready _ srv.db accepted in
                    Move.passes l mine t there
                      (sym (ap (λ n. n == 0) (pending_lem l mine there)) ∙ pending) ready
                      zero_back),
                same-Tables j srv _ refl,
              )))

    pub handle-Moved : Moved driver remote_ip msg j srv (handle lzo driver remote_ip msg s srv)
    unfolding handle Here
    handle-Moved =
        if-Moved driver remote_ip msg j srv (msg.type == idn_net_msg_login) _ _
          (λ t. handle_login-Moved (ground arith))
          (λ t1.
            if-Moved driver remote_ip msg j srv (msg.type == net_msg_req_cha_bainfo) _ _
              (λ t. handle_char_list-Moved)
              (λ t2.
                if-Moved driver remote_ip msg j srv (msg.type == net_msg_req_cha_binfo_ca) _ _
                  (λ t. handle_char_detail-Moved)
                  (λ t3.
                    if-Moved driver remote_ip msg j srv (msg.type == daum_net_msg_passcheck) _ _
                      (λ t. handle_passcheck-Moved (ground arith))
                      (λ t4. answers _ srv (send-Own lzo _ s) (unchanged _ refl refl)))))
