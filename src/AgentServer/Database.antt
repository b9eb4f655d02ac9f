-- ===== src/AgentServer/Database.antt =====
-- The database operations of servers/agentserver/agent_server.cpp.
pub mod Rows
use ran_online.Base.{
  ℕ, zero, suc, ◌%◌, ◌^◌, List, [], ◌∷◌, ◌++◌, Bool, true, false, not, ◌&&◌, ◌||◌, Option, some,
  none,
}
use ran_online.Base.{length, if◌then◌else◌, ltb, leb, ◌==◌, codes}
use ran_online.Base.Int.{ℤ, pos, negsuc, to_word}
use ran_online.CharLobby.{CharInfoLobby, new_char_info_lobby}
use ran_online.Odbc.{Driver, OdbcDb}
use ran_online.Odbc.Params.{
  clear_params, append_iparam_integer, append_oparam_integer, append_rparam_integer,
  append_iparam_varchar,
}
use ran_online.Odbc.Results.{
  is_opened, execute, execute_stored_procedure, get_collect, collected_int, collected_bigint,
  collected_text, get_param, next,
}
use ran_online.AgentServer.{
  fb_ok, fb_fail, fb_system, fb_dup, fb_incorrect, fb_ip_ban, fb_block, fb_random_pass, fb_betakey,
  fb_kr_ok_use_pass, fb_kr_ok_new_pass,
}

pub record UserInfo : Type 0 where
  pub user_num : ℤ
  pub user_type : ℤ
  pub cha_remain : ℕ
  pub cha_test_remain : ℕ
  pub premium_date : List ℕ
  pub chat_block_date : List ℕ
  pub last_login_date : List ℕ

-- `isalnum`, and the punctuation that both filters of a user name accept.
unfoldable pub is_name_char : ℕ → Bool
is_name_char c =
    (leb 0x30 c && leb c 0x39)
    || ((leb 0x41 c && leb c 0x5a)
        || ((leb 0x61 c && leb c 0x7a) || ((c == 0x5f) || ((c == 0x2d) || (c == 0x2e)))))

unfoldable pub clean_user : List ℕ → List ℕ
clean_user [] = []
clean_user (c ∷ username) =
    let rest = clean_user username in if is_name_char c then c ∷ rest else rest

-- The switch on the result of gs_user_verify: `loggedIn` and `errCode`.
unfoldable pub verify_result : ℤ → Bool × ℕ
verify_result (negsuc n) = (false, fb_fail)
verify_result (pos n) =
    if (n == 1) || ((n == 2) || (n == 3))
    then (true, fb_ok)
    else if n == 30
    then (true, fb_kr_ok_new_pass)
    else if n == 31
    then (true, fb_kr_ok_use_pass)
    else if n == 0
    then (false, fb_incorrect)
    else if n == 4
    then (false, fb_ip_ban)
    else if n == 5
    then (false, fb_dup)
    else if n == 6
    then (false, fb_block)
    else if n == 7
    then (false, fb_random_pass)
    else if n == 23
    then (false, fb_betakey)
    else (false, fb_fail)

unfoldable pub verify_params : List ℕ → List ℕ → List ℕ → OdbcDb → OdbcDb
verify_params username password ip db0 =
    let db1 = append_rparam_integer (clear_params db0) in
    let db2 = append_iparam_varchar (codes "@userId") username 20 db1 in
    let db3 = append_iparam_varchar (codes "@userPass") password 20 db2 in
    let db4 = append_iparam_varchar (codes "@userIp") ip 20 db3 in
    let db5 = append_iparam_integer (codes "@SvrGrpNum") (pos 1) db4 in
    let db6 = append_iparam_integer (codes "@SvrNum") (pos 0) db5 in
    append_oparam_integer (codes "@nReturn") db6

unfoldable pub user_query : List ℕ → List ℕ
user_query username =
    codes
      "SELECT UserNum, UserType, ChaRemain, ChaTestRemain, PremiumDate, ChatBlockDate, LastLoginDate FROM dbo.GSUserInfo WHERE UserID = '"
    ++ (clean_user username ++ codes "'")

-- `static_cast<uint16_t>` of an `int`.
abbrev pub to_uint16 : ℤ → ℕ
to_uint16 i = to_word 32 i % 2 ^ 16

abbrev pub column : List ℕ → OdbcDb → ℤ
column name db = collected_int (get_collect name db)

user_info : OdbcDb → UserInfo
user_info db = record {
  user_num = column (codes "UserNum") db;
  user_type = column (codes "UserType") db;
  cha_remain = to_uint16 (column (codes "ChaRemain") db);
  cha_test_remain = to_uint16 (column (codes "ChaTestRemain") db);
  premium_date = collected_text (get_collect (codes "PremiumDate") db);
  chat_block_date = collected_text (get_collect (codes "ChatBlockDate") db);
  last_login_date = collected_text (get_collect (codes "LastLoginDate") db);
}

-- Behind a successful verification.
unfoldable pub fetch_user : Driver → List ℕ → ℕ → OdbcDb → OdbcDb × (ℕ × Option UserInfo)
unfolding user_info
fetch_user driver username err_code db0 =
    let (db1, found) = execute driver (user_query username) db0 in
    if not found
    then (db1, (fb_system, none))
    else if db1.eof
    then (db1, (fb_incorrect, none))
    else (db1, (err_code, some (user_info db1)))

unfoldable pub after_verify : Driver → List ℕ → OdbcDb × Option ℤ → OdbcDb × (ℕ × Option UserInfo)
unfolding fetch_user
after_verify driver username (db, none) = (db, (fb_system, none))
after_verify driver username (db, some result) =
    let (logged_in, err_code) = verify_result result in
    if logged_in then fetch_user driver username err_code db else (db, (err_code, none))

-- The database, `errCode`, and the user where the code returns true.
unfoldable pub process_user_login :
    Driver → List ℕ → List ℕ → List ℕ → OdbcDb → OdbcDb × (ℕ × Option UserInfo)
unfolding verify_params after_verify
process_user_login driver username password ip db =
    let (db1, done) =
      execute_stored_procedure driver (codes "dbo.gs_user_verify")
        (verify_params username password ip db) in
    if not (is_opened db)
    then (db, (fb_system, none))
    else if not done
    then (db1, (fb_system, none))
    else after_verify driver username (get_param (codes "RETURN_VALUE") db1)

abbrev pub is_positive : ℤ → Bool
is_positive (pos n) = ltb 0 n
is_positive (negsuc n) = false

-- The loop over the rows, at most `fuel` times.
char_rows : ℕ → OdbcDb → OdbcDb × List ℤ
char_rows zero db = (db, [])
char_rows (suc fuel) db =
    let cha_num = column (codes "ChaNum") db in
    let rest = char_rows fuel (next db).0 in
    if db.eof then (db, []) else (rest.0, if is_positive cha_num then cha_num ∷ rest.1 else rest.1)

unfoldable pub char_list_params : ℤ → OdbcDb → OdbcDb
char_list_params user_num db =
    let db1 = append_iparam_integer (codes "@UserNum") user_num (clear_params db) in
    append_iparam_integer (codes "@ServerGroup") (pos 1) db1

-- The numbers stay empty where the code returns false.
unfoldable pub process_char_list : Driver → ℤ → OdbcDb → OdbcDb × List ℤ
unfolding char_rows char_list_params
process_char_list driver user_num db =
    let (db1, done) =
      execute_stored_procedure driver (codes "dbo.sp_ChaListAgent")
        (char_list_params user_num db) in
    if done then char_rows (length db1.rows) db1 else (db1, [])

char_detail_params : ℤ → ℤ → OdbcDb → OdbcDb
char_detail_params user_num cha_num db =
    let db1 = append_iparam_integer (codes "@UserNum") user_num (clear_params db) in
    append_iparam_integer (codes "@ChaNum") cha_num db1

abbrev column16 : List ℕ → OdbcDb → ℕ
column16 name db = to_uint16 (column name db)

-- The columns of one row, into the struct as constructed.
char_detail : ℤ → OdbcDb → CharInfoLobby
char_detail cha_num db =
    let fresh = new_char_info_lobby in
    record fresh {
      dw_char_id = to_word 32 cha_num;
      club_db_num = to_word 32 (column (codes "GuNum") db);
      cha_name = collected_text (get_collect (codes "ChaName") db);
      em_class = to_word 32 (column (codes "ChaClass") db);
      w_school = column16 (codes "ChaSchool") db;
      s_stats = record {
        w_dex = column16 (codes "ChaDex") db;
        w_int = column16 (codes "ChaIntel") db;
        w_pow = column16 (codes "ChaPower") db;
        w_str = column16 (codes "ChaStrong") db;
        w_spi = column16 (codes "ChaSpirit") db;
        w_sta = column16 (codes "ChaStrength") db;
      };
      w_level = column16 (codes "ChaLevel") db;
      w_hair = column16 (codes "ChaHair") db;
      w_face = column16 (codes "ChaFace") db;
      n_bright = column (codes "ChaBright") db;
      w_sex = column16 (codes "ChaSex") db;
      w_hair_color = column16 (codes "ChaHairColor") db;
      s_experience = record {
        ln_data1 = collected_bigint (get_collect (codes "ChaExp") db);
        ln_data2 = pos 0;
      };
      s_save_map_id = record { dw_id = to_word 32 (column (codes "ChaSaveMap") db) };
      s_hp = record { dw_data = to_word 32 (column (codes "ChaHP") db) % 2 ^ 16 };
      lock = not (to_word 32 (column (codes "ChaLock") db) == 0);
    }

unfoldable pub process_char_detail : Driver → ℤ → ℤ → OdbcDb → OdbcDb × Option CharInfoLobby
unfolding char_detail_params char_detail
process_char_detail driver user_num cha_num db =
    let (db1, done) =
      execute_stored_procedure driver (codes "dbo.sp_GetChaLobbyInfo")
        (char_detail_params user_num cha_num db) in
    if done && not db1.eof then (db1, some (char_detail cha_num db1)) else (db1, none)

pass_check_params : List ℕ → List ℕ → ℤ → OdbcDb → OdbcDb
pass_check_params user_id pin check_flag db =
    let db1 = append_rparam_integer (clear_params db) in
    let db2 = append_iparam_varchar (codes "@szDaumGID") user_id 20 db1 in
    let db3 = append_iparam_varchar (codes "@szDaumPasswd") pin 20 db2 in
    let db4 = append_iparam_integer (codes "@nCheckFlag") check_flag db3 in
    append_oparam_integer (codes "@nReturn") db4

-- `GetParam` leaves 0 where it returns false.
abbrev or_zero : Option ℤ → ℤ
or_zero none = pos 0
or_zero (some i) = i

-- The return value, or the output parameter where that is missing or 0.
pass_result : ℤ → OdbcDb → OdbcDb × ℤ
pass_result (pos zero) db = let (db1, out) = get_param (codes "@nReturn") db in (db1, or_zero out)
pass_result rv db = (db, rv)

unfoldable pub process_pass_check : Driver → List ℕ → List ℕ → ℤ → OdbcDb → OdbcDb × Option ℤ
unfolding pass_check_params pass_result
process_pass_check driver user_id pin check_flag db =
    let (db1, done) =
      execute_stored_procedure driver (codes "dbo.daum_user_passcheck")
        (pass_check_params user_id pin check_flag db) in
    let (db2, rv) = get_param (codes "RETURN_VALUE") db1 in
    let (db3, result) = pass_result (or_zero rv) db2 in
    if done then (db3, some result) else (db1, none)
