-- ===== src/AgentServer/Dispatch/Access.antt =====
-- Who gets at the database through the dispatcher of servers/agentserver/agent_server.cpp.
use ran_online.Base.{
  ℕ, ◌+◌, ◌≡◌, refl, sym, subst, List, [], ◌∷◌, Bool, true, false, not, ◌&&◌, ◌||◌, Option, some,
  none, ◌⊎◌, inl, inr, Bool-cases, arith,
}
use ran_online.Base.{codes, ltb, ◌==◌, if◌then◌else◌}
use ran_online.Base.Int.{ℤ, pos, negsuc}
use ran_online.MinLzo.{Lzo}
use ran_online.Packet.{Message, payload_size}
use ran_online.Session.{Session, Effect, shut_socket, on_close, close}
use ran_online.Odbc.{Driver, OdbcDb}
use ran_online.Odbc.Results.{execute, execute_stored_procedure, is_opened, get_param}
use ran_online.Servers.{find}
use ran_online.Servers.Tables.{find-erase}
use ran_online.AgentServer.{
  AgentServer, int_field, net_msg_req_cha_binfo_ca, net_msg_req_cha_bainfo, fb_ok,
  fb_kr_ok_use_pass, fb_kr_ok_new_pass,
}
use ran_online.AgentServer.Database.{
  UserInfo, verify_result, fetch_user, after_verify, process_user_login, is_positive, verify_params,
  user_query,
}
use ran_online.AgentServer.Dispatch.{
  react, react_all, on_session, user_of, handle, handle_of, handle_char_list, handle_char_detail,
  dispatch,
}

-- What a server and its effects are when the client `id` is thrown out: nothing else happens.
abbrev pub ThrownOut : ℕ → AgentServer → AgentServer × List (ℕ × Effect) → Type 0
ThrownOut id srv (after, effects) =
    (after.db ≡ srv.db)
    × (effects ≡ (id, shut_socket) ∷ (id, on_close id) ∷ [])
    × (find id after.sessions ≡ none)
    × (find id after.login_sessions ≡ none)

ThrownOut-close :
    (id : ℕ) (s : Session) (srv : AgentServer)
    → s.client_id ≡ id
    → s.closed ≡ false
    → ThrownOut id srv (on_session id (close s) srv)
unfolding on_session close react_all react
ThrownOut-close id s srv own running =
    rw (running, own) (refl, refl, find-erase id _, find-erase id _)

-- A request for the details of a character that is too short or names no character.
unfoldable pub is_malformed : Message → Bool
is_malformed msg =
    (msg.type == net_msg_req_cha_binfo_ca)
    && (ltb (payload_size msg) 4 || not (is_positive (int_field 8 msg.bytes)))

-- A malformed request is dropped, and any other throws the client out.
abbrev pub Refused : Message → AgentServer → AgentServer × List (ℕ × Effect) → Type 0
Refused msg srv r = if is_malformed msg then r ≡ (srv, []) else ThrownOut msg.client_id srv r

module _ (lzo : Lzo) (driver : Driver) (msg : Message) (s : Session) (srv : AgentServer)
    (own : s.client_id ≡ msg.client_id) (running : s.closed ≡ false)
    (nobody : is_positive (user_of msg.client_id srv) ≡ false) where
  handle_char_list-ThrownOut : ThrownOut msg.client_id srv (handle_char_list lzo driver msg s srv)
  unfolding handle_char_list
  handle_char_list-ThrownOut = rw nobody (ThrownOut-close msg.client_id s srv own running)

  handle_char_detail-Refused :
      msg.type ≡ net_msg_req_cha_binfo_ca
      → Refused msg srv (handle_char_detail lzo driver msg s srv)
  unfolding handle_char_detail is_malformed
  handle_char_detail-Refused detail = elim (Bool-cases (ltb (payload_size msg) 4)) [
    | inl short ↦ simp (detail, short) refl
    | inr long ↦ elim (Bool-cases (is_positive (int_field 8 msg.bytes))) [
      | inl some_char ↦
          simp (detail, long, some_char, nobody) (ThrownOut-close msg.client_id s srv own running)
      | inr no_char ↦ simp (detail, long, no_char) refl
    ]
  ]

  handle-Refused :
      (ip : List ℕ)
      → (msg.type ≡ net_msg_req_cha_bainfo) ⊎ (msg.type ≡ net_msg_req_cha_binfo_ca)
      → Refused msg srv (handle lzo driver ip msg s srv)
  unfolding handle is_malformed
  handle-Refused ip (inl list) = simp list handle_char_list-ThrownOut
  handle-Refused ip (inr detail) =
      let e : handle lzo driver ip msg s srv ≡ handle_char_detail lzo driver msg s srv =
        simp detail refl in
      subst (Refused msg srv) (sym e) (handle_char_detail-Refused detail)

-- A client with an open session that has not logged in and asks for the character list or for the
-- details of a character, with no call overlapping: no answer is sent and the database is not used. A
-- request for details that is shorter than its number or whose number is not positive is dropped,
-- and only the count of messages changes. Any other request, each for the list included, shuts the
-- socket and calls the close handler, and the client leaves both tables.
pub dispatch-Refused :
    (lzo : Lzo) (driver : Driver) (ip : List ℕ) (msg : Message) (s : Session) (srv : AgentServer)
    → find msg.client_id srv.sessions ≡ some s
    → s.client_id ≡ msg.client_id
    → s.closed ≡ false
    → is_positive (user_of msg.client_id srv) ≡ false
    → (msg.type ≡ net_msg_req_cha_bainfo) ⊎ (msg.type ≡ net_msg_req_cha_binfo_ca)
    → Refused msg (record srv { processed = srv.processed + 1 }) (dispatch lzo driver ip msg srv)
unfolding dispatch handle_of user_of
dispatch-Refused lzo driver ip msg s srv found own running nobody kind = rw found (
    handle-Refused lzo driver msg s (record srv { processed = srv.processed + 1 }) own running
      nobody ip kind)

abbrev pub IsSuccess : ℕ → Type 0
IsSuccess err_code =
    (err_code ≡ fb_ok) ⊎ ((err_code ≡ fb_kr_ok_use_pass) ⊎ (err_code ≡ fb_kr_ok_new_pass))

-- A user is only there with an open database and one of the three results of a login.
abbrev pub Granted : OdbcDb → ℕ × Option UserInfo → Type 0
Granted db (err_code, none) = Unit
Granted db (err_code, some user) = (is_opened db ≡ true) × IsSuccess err_code

verify_result-IsSuccess :
    (result : ℤ) → (verify_result result).0 ≡ true → IsSuccess (verify_result result).1
unfolding verify_result
verify_result-IsSuccess (pos n) h = ground arith
verify_result-IsSuccess (negsuc n) h = ground arith

fetch_user-Granted :
    (driver : Driver) (db0 db : OdbcDb) (username : List ℕ) (err_code : ℕ)
    → is_opened db0 ≡ true
    → IsSuccess err_code
    → Granted db0 (fetch_user driver username err_code db).1
unfolding fetch_user
fetch_user-Granted driver db0 db username err_code running ok =
    elim (Bool-cases (execute driver (user_query username) db).1) [
      | inr failed ↦ rw failed (record {})
      | inl done ↦ elim (Bool-cases (execute driver (user_query username) db).0.eof) [
        | inl none_there ↦ rw (done, none_there) (record {})
        | inr row ↦ rw (done, row) (running, ok)
      ]
    ]

after_verify-Granted :
    (driver : Driver) (db0 : OdbcDb) (username : List ℕ) (answer : OdbcDb × Option ℤ)
    → is_opened db0 ≡ true
    → Granted db0 (after_verify driver username answer).1
unfolding after_verify
after_verify-Granted driver db0 username (db, none) running = record {}
after_verify-Granted driver db0 username (db, some result) running =
    elim (Bool-cases (verify_result result).0) [
      | inr refused ↦ rw refused (record {})
      | inl logged_in ↦ rw logged_in (
          fetch_user-Granted driver db0 db username _ running
            (verify_result-IsSuccess result logged_in))
    ]

-- Where ProcessUserLogin gives a user, the database is open and its code is one of the three of a
-- successful login, whatever the driver answers.
pub process_user_login-Granted :
    (driver : Driver) (username password ip : List ℕ) (db : OdbcDb)
    → Granted db (process_user_login driver username password ip db).1
unfolding process_user_login
process_user_login-Granted driver username password ip db =
    let executed =
      execute_stored_procedure driver (codes "dbo.gs_user_verify")
        (verify_params username password ip db) in
    elim (Bool-cases (is_opened db)) [
      | inr shut ↦ rw shut (record {})
      | inl running ↦ elim (Bool-cases executed.1) [
        | inr failed ↦ rw (running, failed) (record {})
        | inl done ↦
            rw (running, done)
              (after_verify-Granted driver db username (get_param (codes "RETURN_VALUE") executed.0)
                running)
      ]
    ]
