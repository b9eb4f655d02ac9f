-- ===== src/Odbc/Results.antt =====
-- Execution, the cursor and the read path of db/odbc_db.cpp. A statement's result set and the
-- values of its output parameters come from the driver's answer.
use ran_online.Base.{
  ℕ, zero, suc, ◌+◌, List, [], ◌∷◌, ◌++◌, Bool, true, false, ◌&&◌, ◌||◌, not, Option, some, none,
  map,
}
use ran_online.Base.{
  ◌-◌, length, take, drop, get_elem?, if◌then◌else◌, ltb, leb, ◌==◌, codes, same_text,
}
use ran_online.Base.Int.{ℤ, pos, of_word}
use ran_online.Packet.{read_le32}
use ran_online.Odbc.{Param, Datum, Answer, Driver, OdbcDb}
use ran_online.Odbc.Params.{sql_varchar, with_return, bind_order, call_text}

lower_char : ℕ → ℕ
lower_char c = if leb 0x41 c && leb c 0x5a then c + 32 else c

unfoldable pub lower : List ℕ → List ℕ
unfolding lower_char
lower = map lower_char

unfoldable pub free_stmt : OdbcDb → OdbcDb
free_stmt db = record db { stmt = false; cols = []; rows = []; eof = true; results_drained = false }

unfoldable pub close : OdbcDb → OdbcDb
close db = record (free_stmt db) { params = []; params_executed = false; conn = false }

-- The answers of the allocations and of SQLDriverConnect.
unfoldable pub open_connection : Bool → Bool → Bool → OdbcDb → OdbcDb × Bool
open_connection env_ok dbc_ok connect_ok db =
    if not env_ok
    then (db, false)
    else if dbc_ok && connect_ok
    then (record db { conn = true }, true)
    else (close db, false)

unfoldable pub is_opened : OdbcDb → Bool
is_opened db = db.conn

-- `buildColumnMap` and `fetchRow` on a fresh result set.
unfoldable pub show_results : Answer → OdbcDb → OdbcDb
show_results answer db = record db {
  cols = map lower answer.columns;
  rows = answer.rows;
  eof = length answer.rows == 0;
}

unfoldable pub exec_direct : Driver → List ℕ → OdbcDb → OdbcDb × Bool
exec_direct driver sql db =
    let answer = driver sql [] in
    if not db.conn
    then (db, false)
    else if not answer.alloc_ok
    then (free_stmt db, false)
    else (record (free_stmt db) { stmt = true; written = answer.written }, answer.execute_ok)

unfoldable pub execute : Driver → List ℕ → OdbcDb → OdbcDb × Bool
execute driver sql db =
    let r = exec_direct driver sql db in
    if r.1 then (show_results (driver sql []) r.0, true) else (r.0, false)

unfoldable pub exec_call : Driver → List ℕ → OdbcDb → OdbcDb × Bool
exec_call driver sp db =
    let answer = driver (call_text sp db.params) (bind_order db.params) in
    let with_stmt = record (free_stmt db) { stmt = true; written = answer.written } in
    if not db.conn
    then (db, false)
    else if not answer.alloc_ok
    then (free_stmt db, false)
    else if answer.prepare_ok && (answer.bind_ok && answer.execute_ok)
    then (
      record (show_results answer with_stmt) { results_drained = false; params_executed = true },
      true,
    )
    else (with_stmt, false)

unfoldable pub execute_stored_procedure : Driver → List ℕ → OdbcDb → OdbcDb × Bool
execute_stored_procedure driver sp db =
    if length db.params == 0
    then execute driver (codes "EXEC " ++ sp) db
    else exec_call driver sp db

-- SQLFetch: the row behind the current one.
unfoldable pub next : OdbcDb → OdbcDb × Bool
next db = elim db.rows [
  | [] ↦ (record db { eof = true }, false)
  | row ∷ rows ↦
      if db.stmt && not (length rows == 0)
      then (record db { rows = rows; eof = false }, true)
      else (record db { rows = []; eof = true }, false)
]

-- The map keeps the last column of a name; 0 is no column.
col_index_from : ℕ → List ℕ → List (List ℕ) → ℕ
col_index_from i column [] = 0
col_index_from i column (name ∷ cols) =
    let later = col_index_from (suc i) column cols in
    if not (later == 0) then later else if same_text name column then i else 0

unfoldable pub col_index : List ℕ → OdbcDb → ℕ
unfolding col_index_from
col_index column db = col_index_from 1 (lower column) db.cols

unfoldable pub datum_at : ℕ → List Datum → Option Datum
datum_at zero row = none
datum_at (suc i) row = get_elem? row i

unfoldable pub current : ℕ → List (List Datum) → Option Datum
unfolding datum_at
current i [] = none
current i (row ∷ rows) = datum_at i row

unfoldable pub get_collect : List ℕ → OdbcDb → Option Datum
unfolding current
get_collect column db = current (col_index column db) db.rows

-- The integer that a column delivers: 0 where there is no value.
unfoldable pub collected_int : Option Datum → ℤ
collected_int none = pos 0
collected_int (some d) = elim d.as_int [ none ↦ pos 0 | some i ↦ i ]

unfoldable pub collected_bigint : Option Datum → ℤ
collected_bigint none = pos 0
collected_bigint (some d) = elim d.as_bigint [ none ↦ pos 0 | some i ↦ i ]

unfoldable pub collected_text : Option Datum → List ℕ
collected_text none = []
collected_text (some d) = elim d.as_text [ none ↦ [] | some s ↦ s ]

-- The driver is outside this code. What it does to the memory bound for one output parameter: it
-- writes as many bytes as the buffer takes, a text with its zero byte, and the length that it had.
driver_bytes : Bool → ℕ → List ℕ → List ℕ
driver_bytes true cap bytes = take cap (take (cap - 1) bytes ++ (0 ∷ []))
driver_bytes false cap bytes = take cap bytes

unfoldable pub write_param : Option (List ℕ) → Param → Param
unfolding driver_bytes
write_param none p = record p { ind = none }
write_param (some bytes) p =
    let new = driver_bytes (p.sql_type == sql_varchar) (length p.buf) bytes in
    record p { buf = new ++ drop (length new) p.buf; ind = some (length bytes) }

-- The driver's writes to the output parameters with the flag `ret`, which SQLBindParameter bound from
-- number `num` on.
unfoldable pub write_back : Bool → (ℕ → Option (List ℕ)) → ℕ → List Param → List Param
unfolding write_param
write_back ret written num [] = []
write_back ret written num (p ∷ params) =
    let bound = (ret && p.is_return) || (not ret && not p.is_return) in
    let rest = write_back ret written (if bound then suc num else num) params in
    if bound && p.io_type then write_param (written num) p ∷ rest else p ∷ rest

-- `drainResults`. The driver writes the parameters when SQLMoreResults has no further result set, and
-- then has no row to fetch or to read.
unfoldable pub drain_results : OdbcDb → OdbcDb
drain_results db =
    let returns = write_back true db.written 1 db.params in
    let others = write_back false db.written (1 + length (with_return true db.params)) returns in
    record db {
      params = if db.stmt then others else db.params;
      rows = [];
      results_drained = true;
      eof = true;
    }

unfoldable pub find_param : List ℕ → List Param → Option Param
find_param name [] = none
find_param name (p ∷ params) =
    if same_text (lower p.name) (lower name) then some p else find_param name params

-- The value of an integer parameter: `none` where `GetParam` returns false, and its `out` is 0.
unfoldable pub int_param : Option Param → Option ℤ
int_param none = none
int_param (some p) = elim p.ind [
  | none ↦ none
  | some n ↦ if ltb (length p.buf) 4 then none else some (of_word 31 (read_le32 p.buf))
]

unfoldable pub get_param : List ℕ → OdbcDb → OdbcDb × Option ℤ
get_param name db =
    let drained = if db.results_drained then db else drain_results db in
    (drained, int_param (find_param name drained.params))
