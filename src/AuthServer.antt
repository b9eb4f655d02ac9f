-- ===== src/AuthServer.antt =====
-- servers/authserver/auth_server.{h,cpp} and auth_server_msg.h: the certification of a server. A
-- string is the list of its characters' codes.
pub mod Answer
pub mod Request
pub mod Fields
pub mod Lifecycle
use ran_online.Base.{
  ℕ, zero, suc, ◌+◌, ◌-◌, ◌*◌, ◌/◌, ◌%◌, ◌^◌, List, [], ◌∷◌, ◌++◌, Bool, true, false, not, ◌&&◌,
  ◌||◌, Option, some, none,
}
use ran_online.Base.{length, take, drop, replicate, get_or, if◌then◌else◌, ltb, leb, ◌==◌, codes}
use ran_online.Base.Int.{ℤ, pos, negsuc, to_word, of_word}
use ran_online.MinLzo.{Lzo}
use ran_online.Packet.{Message, payload, payload_size, encode_message, write_le32}
use ran_online.MsgManager.{MsgManager, msg_queue_insert}
use ran_online.Session.{
  Session, Effect, start_read, start_write, on_msg, shut_socket, on_close, send,
}
use ran_online.AuthCrypto.Rc5.{Shifts}
use ran_online.AuthCrypto.Cbc.{decrypt_auth_data, encrypt_auth_data}
use ran_online.Odbc.{Driver, OdbcDb}
use ran_online.Odbc.Params.{clear_params, append_iparam_integer, append_iparam_varchar}
use ran_online.Odbc.Results.{
  execute_stored_procedure, get_collect, collected_int, collected_text, next,
}
use ran_online.Strings.{atoi, to_string, text_to_field}
use ran_online.Servers.{find, change, erase, of_client}
use ran_online.AgentServer.{until_zero, write_int}

pub record AuthServer : Type 0 where
  pub db_conn : List ℕ
  pub db : OdbcDb
  pub db_ready : Bool
  pub accepted : ℕ
  pub updates : ℕ
  pub processed : ℕ
  pub next_client_id : ℕ
  pub recv_msgs : MsgManager
  pub sessions : List (ℕ × Session)

pub record CertRequest : Type 0 where
  pub country : ℤ
  pub server_type : ℤ
  pub ip : List ℕ
  pub port : ℤ
  pub uniq_key : List ℕ
  pub is_session_svr : ℤ

pub record CertResult : Type 0 where
  pub ok : Bool
  pub certification : ℤ
  pub session_svr_id : ℤ
  pub new_uniq_key : List ℕ

abbrev net_msg_auth_certification_request : ℕ
net_msg_auth_certification_request = 204

abbrev net_msg_auth_certification_ans : ℕ
net_msg_auth_certification_ans = 205

abbrev server_session : ℕ
server_session = 2

abbrev pub max_ip_length : ℕ
max_ip_length = 20

abbrev pub server_name_length : ℕ
server_name_length = 50

abbrev pub auth_data_length : ℕ
auth_data_length = 500

-- The field under way is `cur`.
unfoldable pub split_from : ℕ → List ℕ → List ℕ → List (List ℕ)
split_from d cur [] = cur ∷ []
split_from d cur (c ∷ s) =
    let here = split_from d [] s in
    let later = split_from d (cur ++ (c ∷ [])) s in if c == d then cur ∷ here else later

unfoldable pub split_fields : List ℕ → ℕ → List (List ℕ)
unfolding split_from
split_fields s d = split_from d [] s

abbrev pub is_session : ℤ → Bool
is_session (pos n) = n == server_session
is_session (negsuc n) = false

-- The 91 bytes of G_AUTH_INFO in front of `szAuthData`.
unfoldable pub g_auth_head : CertRequest → CertResult → List ℕ
g_auth_head req res =
    let session_id = if is_session req.server_type then res.session_svr_id else pos 0 in
    let behind_ip : List ℕ =
      replicate 3 0
      ++ (write_int req.port ++ (write_int session_id ++ replicate (server_name_length + 1) 0)) in
    write_int req.server_type
    ++ (write_int req.country ++ (text_to_field max_ip_length req.ip ++ behind_ip))

-- The bytes of G_AUTH_INFO.
unfoldable pub g_auth_info : CertRequest → CertResult → List ℕ → List ℕ
unfolding g_auth_head
g_auth_info req res auth_data =
    g_auth_head req res ++ (text_to_field auth_data_length auth_data ++ replicate 3 0)

-- The certified fields, between commas.
unfoldable pub cert_plain : CertRequest → CertResult → List ℕ
cert_plain req res =
    to_string req.country
    ++ (codes ","
        ++ (to_string req.server_type
            ++ (codes ","
                ++ (req.ip
                    ++ (codes ","
                        ++ (to_string req.port
                            ++ (codes ","
                                ++ (res.new_uniq_key
                                    ++ (codes "," ++ to_string res.certification)))))))))

-- Five fields of the decrypted text; `none` where there are fewer.
unfoldable pub cert_request : List (List ℕ) → Option CertRequest
cert_request (f0 ∷ f1 ∷ f2 ∷ f3 ∷ f4 ∷ more) = some (record {
  country = atoi (until_zero f0);
  server_type = atoi (until_zero f1);
  ip = f2;
  port = atoi (until_zero f3);
  uniq_key = f4;
  is_session_svr = if is_session (atoi (until_zero f1)) then pos 1 else pos 0;
})
cert_request fields = none

cert_params : CertRequest → OdbcDb → OdbcDb
cert_params r db0 =
    let db1 = append_iparam_integer (codes "@country") r.country (clear_params db0) in
    let db2 = append_iparam_integer (codes "@servertype") r.server_type db1 in
    let db3 = append_iparam_varchar (codes "@serverip") r.ip (length r.ip) db2 in
    let db4 = append_iparam_integer (codes "@serverport") r.port db3 in
    let db5 = append_iparam_varchar (codes "@uniqKey") r.uniq_key (length r.uniq_key) db4 in
    append_iparam_integer (codes "@IsSessionSvr") r.is_session_svr db5

abbrev no_result : CertResult
no_result = record { ok = false; certification = pos 0; session_svr_id = pos 0; new_uniq_key = [] }

row_result : OdbcDb → CertResult
row_result db = record {
  ok = true;
  certification = collected_int (get_collect (codes "Certification") db);
  session_svr_id = collected_int (get_collect (codes "SessionSvrID") db);
  new_uniq_key = collected_text (get_collect (codes "UniqKey") db);
}

-- The loop over the rows, at most `fuel` more of them: the last row counts.
cert_rows : ℕ → OdbcDb → OdbcDb × CertResult
unfolding row_result
cert_rows zero db = (db, row_result db)
cert_rows (suc fuel) db =
    let (db1, more) = next db in
    let rest = cert_rows fuel db1 in if more then rest else (db1, row_result db)

-- The result is `no_result` where the code returns false.
unfoldable pub process_certification : Driver → CertRequest → OdbcDb → OdbcDb × CertResult
unfolding cert_params cert_rows
process_certification driver r db =
    let (db1, done) =
      execute_stored_procedure driver (codes "dbo.sp_CertificationUniqKey") (cert_params r db) in
    if not done
    then (db1, no_result)
    else if db1.eof
    then (db1, record no_result { ok = true })
    else cert_rows (length db1.rows) db1

-- The payload of the answer.
unfoldable pub cert_answer : Shifts → CertRequest → CertResult → List ℕ
cert_answer m req res = g_auth_info req res (encrypt_auth_data m (cert_plain req res))

unfoldable pub react : Effect → AuthServer → AuthServer
react (on_msg m) srv = record srv { recv_msgs = msg_queue_insert m srv.recv_msgs }
react (on_close id) srv = record srv { sessions = erase id srv.sessions }
react start_read srv = srv
react (start_write packet) srv = srv
react shut_socket srv = srv

unfoldable pub react_all : List Effect → AuthServer → AuthServer
unfolding react
react_all [] srv = srv
react_all (e ∷ effects) srv = react_all effects (react e srv)

unfoldable pub on_session : ℕ → Session × List Effect → AuthServer → AuthServer × List (ℕ × Effect)
unfolding react_all
on_session id (s, effects) srv =
    let held = record srv { sessions = change (λ (old : Session). s) id srv.sessions } in
    (react_all effects held, of_client id effects)

unfoldable pub answer_cert :
    Shifts
    → Lzo
    → Driver
    → ℕ
    → Session
    → Option CertRequest
    → AuthServer
    → AuthServer × List (ℕ × Effect)
unfolding on_session
answer_cert m lzo driver id s none srv = (srv, [])
answer_cert m lzo driver id s (some req) srv =
    let (db1, res) = process_certification driver req srv.db in
    on_session id
      (send lzo (encode_message net_msg_auth_certification_ans (cert_answer m req res)) s)
      (record srv { db = db1 })

-- `szAuthData` stands at byte 91 of the 595 of the request.
unfoldable pub handle_cert :
    Shifts → Lzo → Driver → Message → Session → AuthServer → AuthServer × List (ℕ × Effect)
unfolding answer_cert
handle_cert m lzo driver msg s srv =
    let decrypted = decrypt_auth_data m (until_zero (drop 91 (payload msg))) in
    if ltb (payload_size msg) 595
    then (srv, [])
    else if length decrypted == 0
    then (srv, [])
    else answer_cert m lzo driver msg.client_id s (cert_request (split_fields decrypted 0x2c)) srv

unfoldable pub handle_of :
    Shifts → Lzo → Driver → Message → Option Session → AuthServer → AuthServer × List (ℕ × Effect)
unfolding on_session
handle_of m lzo driver msg none srv = (srv, [])
handle_of m lzo driver msg (some s) srv =
    if msg.type == net_msg_auth_certification_request
    then handle_cert m lzo driver msg s srv
    else on_session msg.client_id (send lzo (encode_message msg.type (payload msg)) s) srv

unfoldable pub dispatch :
    Shifts → Lzo → Driver → Message → AuthServer → AuthServer × List (ℕ × Effect)
unfolding handle_of
dispatch m lzo driver msg srv =
    handle_of m lzo driver msg (find msg.client_id srv.sessions)
      (record srv { processed = srv.processed + 1 })
