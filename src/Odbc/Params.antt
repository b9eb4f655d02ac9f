-- ===== src/Odbc/Params.antt =====
-- The write path of db/odbc_db.cpp: accumulating parameters, the text of the call, and the order
-- in which parameters are bound.
pub mod Markers
use ran_online.Base.{
  ℕ, zero, suc, ◌+◌, List, [], ◌∷◌, ◌++◌, Bool, true, false, ◌&&◌, Option, some, none,
}
use ran_online.Base.{length, replicate, if◌then◌else◌, ltb, leb, ◌==◌, codes}
use ran_online.Base.Int.{ℤ, to_word}
use ran_online.Packet.{write_le32}
use ran_online.Odbc.{Param, OdbcDb}

-- SQL_INTEGER and SQL_VARCHAR
abbrev pub sql_integer : ℕ
sql_integer = 4

abbrev pub sql_varchar : ℕ
sql_varchar = 12

unfoldable pub begin_param : OdbcDb → OdbcDb
begin_param db =
    if db.params_executed then record db { params = []; params_executed = false } else db

unfoldable pub clear_params : OdbcDb → OdbcDb
clear_params db = record db { params = []; params_executed = false }

-- `addParam` with the value that its caller fills in.
unfoldable pub add_param : Param → OdbcDb → OdbcDb
add_param p db = let fresh = begin_param db in record fresh { params = fresh.params ++ (p ∷ []) }

unfoldable pub append_iparam_integer : List ℕ → ℤ → OdbcDb → OdbcDb
append_iparam_integer name var = add_param (record {
  name = name;
  io_type = false;
  is_return = false;
  sql_type = sql_integer;
  column_size = 10;
  buf = write_le32 (to_word 32 var);
  ind = some 4;
})

unfoldable pub append_oparam_integer : List ℕ → OdbcDb → OdbcDb
append_oparam_integer name = add_param (record {
  name = name;
  io_type = true;
  is_return = false;
  sql_type = sql_integer;
  column_size = 10;
  buf = replicate 4 0;
  ind = none;
})

unfoldable pub append_rparam_integer : OdbcDb → OdbcDb
append_rparam_integer = add_param (record {
  name = codes "RETURN_VALUE";
  io_type = true;
  is_return = true;
  sql_type = sql_integer;
  column_size = 10;
  buf = replicate 4 0;
  ind = none;
})

-- `size` is not negative at any call.
unfoldable pub append_iparam_varchar : List ℕ → List ℕ → ℕ → OdbcDb → OdbcDb
append_iparam_varchar name var size = add_param (record {
  name = name;
  io_type = false;
  is_return = false;
  sql_type = sql_varchar;
  column_size = if ltb 0 size then size else (if length var == 0 then 1 else length var);
  buf = var ++ (0 ∷ []);
  ind = some (length var);
})

-- The parameters with the flag `ret`, in append order.
unfoldable pub with_return : Bool → List Param → List Param
with_return ret [] = []
with_return ret (p ∷ params) =
    let rest = with_return ret params in
    if p.is_return then (if ret then p ∷ rest else rest) else (if ret then rest else p ∷ rest)

-- The order of the SQLBindParameter calls.
unfoldable pub bind_order : List Param → List Param
bind_order params = with_return true params ++ with_return false params

unfoldable pub markers : ℕ → List ℕ
markers zero = []
markers (suc n) = codes ",?" ++ markers n

marker_list : ℕ → List ℕ
unfolding markers
marker_list zero = []
marker_list (suc n) = codes " (?" ++ markers n ++ codes ")"

-- The ODBC call escape.
unfoldable pub call_text : List ℕ → List Param → List ℕ
unfolding marker_list
call_text sp params =
    let has_return = ltb 0 (length (with_return true params)) in
    let count = length (with_return false params) in
    codes "{ "
    ++ (if has_return then codes "? = " else [])
    ++ codes "call "
    ++ sp
    ++ marker_list count
    ++ codes " }"
