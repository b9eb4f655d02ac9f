-- ===== src/Examples/Agent.antt =====
-- The character screen, the database layer and the gateway at concrete inputs.
use ran_online.Base.{
  ◌≡◌, refl, inl, List, [], ◌∷◌, ◌++◌, arith, length, codes, replicate, true, false, some, none,
}
use ran_online.Base.Int.{pos}
use ran_online.CharLobby.{CharInfoLobby, new_char_info_lobby, empty_item, pack_lobby_char_info_ac}
use ran_online.CharLobby.Shape.{
  read_items, expected, lobby_items, IsCharInfo, read_items-pack_lobby,
}
use ran_online.Odbc.{Param, OdbcDb, Driver}
use ran_online.Odbc.Params.{
  call_text, append_rparam_integer, append_iparam_integer, add_param, begin_param, with_return,
}
use ran_online.Odbc.Params.Markers.{marks, marks-call_text}
use ran_online.Packet.{Message}
use ran_online.Session.{new_session}
use ran_online.Servers.{find}
use ran_online.AgentServer.{AgentServer}
use ran_online.AgentServer.Dispatch.{dispatch, user_of}
use ran_online.AgentServer.Dispatch.Access.{Refused, dispatch-Refused}
use ran_online.AgentServer.Dispatch.Progress.{dispatch_all-drains}
use ran_online.AgentServer.Lifecycle.{dispatch_all}
use ran_online.Examples.Library.{stored}

-- A character of level 7 with one item of equipment and a name.
abbrev hero : CharInfoLobby
hero = record new_char_info_lobby {
  dw_char_id = 12;
  w_level = 7;
  put_on_items = empty_item ∷ [];
  cha_name = codes "Mia";
}

hero-IsCharInfo : IsCharInfo hero
unfolding lobby_items new_char_info_lobby empty_item
hero-IsCharInfo = omega arith

read_items-pack_lobby_example :
    (read_items (length (lobby_items hero)) (pack_lobby_char_info_ac hero ++ [])
      ≡ some (lobby_items hero, []))
    × (expected 1 (lobby_items hero) ≡ some 0)
read_items-pack_lobby_example = read_items-pack_lobby hero [] hero-IsCharInfo

abbrev pub fresh_db : OdbcDb
fresh_db = record {
  conn = true;
  stmt = false;
  eof = true;
  results_drained = false;
  params_executed = false;
  cols = [];
  rows = [];
  params = [];
  written = λ n. none;
}

abbrev two_params : List Param
two_params =
    (append_iparam_integer (codes "@UserNum") (pos 3) (append_rparam_integer fresh_db)).params

marks-call_text_example :
    marks (call_text (codes "dbo.sp_ChaListAgent") two_params) ≡ length two_params
unfolding marks with_return append_iparam_integer append_rparam_integer add_param begin_param
marks-call_text_example =
    marks-call_text (codes "dbo.sp_ChaListAgent") two_params refl (omega arith)

-- A driver that fails every statement.
abbrev pub failing : Driver
failing = λ sql params. record {
  alloc_ok = true;
  prepare_ok = true;
  bind_ok = true;
  execute_ok = false;
  columns = [];
  rows = [];
  written = λ n. none;
}

-- A driver whose verification answers 1, and whose query for the user has one row.
abbrev pub granting : Driver
granting = λ sql params. record {
  alloc_ok = true;
  prepare_ok = true;
  bind_ok = true;
  execute_ok = true;
  columns = codes "UserNum" ∷ [];
  rows = (record { as_text = none; as_int = some (pos 7); as_bigint = none } ∷ []) ∷ [];
  written = λ n. some (1 ∷ 0 ∷ 0 ∷ 0 ∷ []);
}

-- A gateway with one client, 5, who has not logged in and asks for the character list.
abbrev request : Message
request = record { type = 284; client_id = 5; bytes = replicate 20 0 }

abbrev pub gateway : AgentServer
gateway = record {
  db_conn = [];
  db = fresh_db;
  db_ready = true;
  accepted = 1;
  updates = 0;
  processed = 0;
  recv_msgs = record { front = []; back = request ∷ [] };
  next_client_id = 5;
  sessions = (5, new_session 5) ∷ [];
  login_sessions = [];
}

dispatch-Refused_example :
    Refused request
      (record gateway { processed = 1 })
      (dispatch stored failing (codes "10.0.0.1") request gateway)
unfolding find new_session user_of
dispatch-Refused_example =
    dispatch-Refused stored failing (codes "10.0.0.1") request (new_session 5) gateway refl refl
      refl refl (inl refl)

dispatch_all-drains_example :
    ((dispatch_all stored failing (λ id. codes "10.0.0.1") 1 gateway).0.recv_msgs.back ≡ [])
    × ((dispatch_all stored failing (λ id. codes "10.0.0.1") 1 gateway).0.processed ≡ 1)
dispatch_all-drains_example =
    dispatch_all-drains stored failing (λ id. codes "10.0.0.1") (request ∷ []) gateway refl
