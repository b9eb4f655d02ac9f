-- ===== src/Examples/Pins.antt =====
-- A client whose PIN is pending sends it, and a login that the database grants.
use ran_online.Base.{◌≡◌, refl, [], ◌∷◌, Bool, true, false, Option, some, none, codes, replicate}
use ran_online.Base.Int.{pos}
use ran_online.Odbc.{Driver}
use ran_online.Packet.{Message, read_le32}
use ran_online.AgentServer.{AgentServer}
use ran_online.AgentServer.Database.{
  UserInfo, process_user_login, verify_params, after_verify, fetch_user, verify_result,
}
use ran_online.Odbc.Results.{
  is_opened, execute_stored_procedure, exec_call, get_param, int_param, find_param, drain_results,
  show_results, write_back, free_stmt, exec_direct, execute, write_param, lower, col_index,
  collected_int, collected_text, current, datum_at, get_collect,
}
use ran_online.Odbc.Params.{
  append_oparam_integer, add_param, begin_param, append_iparam_integer, append_iparam_varchar,
  append_rparam_integer, clear_params, bind_order, call_text, with_return,
}
use ran_online.AgentServer.Dispatch.Access.{Granted, process_user_login-Granted}
use ran_online.Examples.Agent.{fresh_db, gateway, granting}

abbrev waiting : AgentServer
waiting = record gateway {
  login_sessions = (5, record { user_num = pos 7; user_type = pos 1; use_2nd_pass = 1 }) ∷ [];
}

-- A driver that runs every statement and delivers 0 to every parameter.
abbrev willing : Driver
willing = λ sql params. record {
  alloc_ok = true;
  prepare_ok = true;
  bind_ok = true;
  execute_ok = true;
  columns = [];
  rows = [];
  written = λ n. some (0 ∷ 0 ∷ 0 ∷ 0 ∷ []);
}

abbrev pin : Message
pin = record { type = 238; client_id = 5; bytes = replicate 56 0 }

abbrev is_there : Option UserInfo → Bool
is_there none = false
is_there (some user) = true

-- The user is there.
granted_test :
    is_there (process_user_login granting (codes "mia") (codes "pass") (codes "ip") fresh_db).1.1
    ≡ true
unfolding process_user_login verify_params is_opened execute_stored_procedure exec_call get_param
    int_param find_param drain_results show_results write_back free_stmt exec_direct execute
    write_param lower col_index collected_int collected_text current datum_at get_collect
    append_oparam_integer add_param begin_param append_iparam_integer append_iparam_varchar
    append_rparam_integer clear_params bind_order call_text with_return after_verify fetch_user
    verify_result read_le32
granted_test = refl

process_user_login-Granted_example :
    Granted fresh_db
      (process_user_login granting (codes "mia") (codes "pass") (codes "10.0.0.1") fresh_db).1
process_user_login-Granted_example =
    process_user_login-Granted granting (codes "mia") (codes "pass") (codes "10.0.0.1") fresh_db
