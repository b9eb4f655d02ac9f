-- ===== src/AgentServer/Database/Rows.antt =====
-- The loop of ProcessCharList in servers/agentserver/agent_server.cpp over the rows of its result.
use ran_online.Base.{
  ℕ, ◌≡◌, refl, ◌∙◌, List, [], ◌∷◌, true, false, none, arith, length, map, if◌then◌else◌, ◌==◌,
  codes,
}
use ran_online.Base.Int.{ℤ}
use ran_online.Odbc.{Datum, Answer, Driver, OdbcDb}
use ran_online.Odbc.Params.{
  append_iparam_integer, add_param, begin_param, clear_params, call_text, bind_order,
}
use ran_online.Odbc.Results.{
  lower, col_index, datum_at, current, collected_int, get_collect, next, show_results, exec_call,
  execute_stored_procedure,
}
use ran_online.AgentServer.Database.{
  column, is_positive, char_rows, char_list_params, process_char_list,
}

-- The positive ones among the numbers that the rows have in one column.
unfoldable pub positive_numbers : ℕ → List (List Datum) → List ℤ
positive_numbers i [] = []
positive_numbers i (row ∷ rows) =
    let n = collected_int (datum_at i row) in
    let rest = positive_numbers i rows in if is_positive n then n ∷ rest else rest

col_index-cols : (n : List ℕ) (d e : OdbcDb) → d.cols ≡ e.cols → col_index n d ≡ col_index n e
unfolding col_index
col_index-cols n d e h = rw h refl

abbrev pub no_database : OdbcDb
no_database = record {
  conn = false;
  stmt = false;
  eof = true;
  results_drained = false;
  params_executed = false;
  cols = [];
  rows = [];
  params = [];
  written = λ n. none;
}

-- A cursor on the first of some rows.
record Shows (rows : List (List Datum)) (db : OdbcDb) : Type 0 where
  at : db.rows ≡ rows
  ended : db.eof ≡ (length rows == 0)
  open_stmt : db.stmt ≡ true

next-Shows :
    (row : List Datum) (rows : List (List Datum)) (db : OdbcDb)
    → Shows (row ∷ rows) db
    → Shows rows (next db).0
unfolding next
next-Shows row [] db h = ground (arith, h.at, h.open_stmt)
next-Shows row (second ∷ rows) db h = ground (arith, h.at, h.open_stmt)

next-cols : (db : OdbcDb) → (next db).0.cols ≡ db.cols
unfolding next
next-cols db = ground arith

column_lem :
    (row : List Datum) (rows : List (List Datum)) (db : OdbcDb) (name : List ℕ) (i : ℕ)
    → db.rows ≡ row ∷ rows
    → col_index name db ≡ i
    → column name db ≡ collected_int (datum_at i row)
unfolding get_collect current
column_lem row rows db name i at col = rw (col, at) refl

-- The number of a column by its name, as `colIndex` finds it in a result with these columns.
unfoldable pub column_of : List ℕ → List (List ℕ) → ℕ
column_of name columns = col_index name (record no_database { cols = map lower columns })

-- The loop from a cursor on the first of `rows`.
char_rows-all :
    (rows : List (List Datum)) (db : OdbcDb) (i : ℕ)
    → Shows rows db
    → col_index (codes "ChaNum") db ≡ i
    → ((char_rows (length rows) db).1 ≡ positive_numbers i rows)
      × ((char_rows (length rows) db).0.eof ≡ true)
unfolding char_rows positive_numbers
char_rows-all [] db i h col = (refl, h.ended)
char_rows-all (row ∷ rows) db i h col =
    let later =
      char_rows-all rows (next db).0 i (next-Shows row rows db h)
        (col_index-cols (codes "ChaNum") (next db).0 db (next-cols db) ∙ col) in
    ground (arith, h.ended, column_lem row rows db (codes "ChaNum") i h.at col, later.0, later.1)

-- A driver's answer to a call that it carried out.
pub record IsDone (answer : Answer) : Type 0 where
  pub allocated : answer.alloc_ok ≡ true
  pub prepared : answer.prepare_ok ≡ true
  pub bound : answer.bind_ok ≡ true
  pub executed : answer.execute_ok ≡ true

execute-Shows :
    (driver : Driver) (sp : List ℕ) (db : OdbcDb) (answer : Answer)
    → driver (call_text sp db.params) (bind_order db.params) ≡ answer
    → IsDone answer
    → db.conn ≡ true
    → (length db.params == 0) ≡ false
    → ((execute_stored_procedure driver sp db).1 ≡ true)
      × Shows answer.rows (execute_stored_procedure driver sp db).0
      × ((execute_stored_procedure driver sp db).0.cols ≡ map lower answer.columns)
unfolding execute_stored_procedure exec_call show_results
execute-Shows driver sp db answer asked ok conn some_params =
    simp (some_params, asked, conn, ok.allocated, ok.prepared, ok.bound, ok.executed)
      (refl, record { at = refl; ended = refl; open_stmt = refl }, refl)

list_params :
    (user_num : ℤ) (db : OdbcDb)
    → ((char_list_params user_num db).conn ≡ db.conn)
      × ((length (char_list_params user_num db).params == 0) ≡ false)
unfolding char_list_params append_iparam_integer add_param begin_param clear_params
list_params user_num db = (refl, refl)

-- Where the connection is open and the driver carries out the call, the loop over the result ends
-- with the cursor behind the last row, and the numbers are the positive values of the column
-- `ChaNum` of all rows, in their order.
pub process_char_list-all :
    (driver : Driver) (user_num : ℤ) (db : OdbcDb) (answer : Answer)
    → db.conn ≡ true
    → driver
        (call_text (codes "dbo.sp_ChaListAgent") (char_list_params user_num db).params)
        (bind_order (char_list_params user_num db).params)
      ≡ answer
    → IsDone answer
    → ((process_char_list driver user_num db).1
        ≡ positive_numbers (column_of (codes "ChaNum") answer.columns) answer.rows)
      × ((process_char_list driver user_num db).0.eof ≡ true)
unfolding process_char_list column_of
process_char_list-all driver user_num db answer conn asked ok =
    let called = char_list_params user_num db in
    let (same_conn, some_params) = list_params user_num db in
    let (done, shows, cols) =
      execute-Shows driver (codes "dbo.sp_ChaListAgent") called answer asked ok (same_conn ∙ conn)
        some_params in
    let db1 = (execute_stored_procedure driver (codes "dbo.sp_ChaListAgent") called).0 in
    let read = char_rows-all answer.rows db1 (column_of (codes "ChaNum") answer.columns) shows (
      col_index-cols (codes "ChaNum") db1 (record no_database { cols = map lower answer.columns })
        cols) in
    simp (done, shows.at) read
