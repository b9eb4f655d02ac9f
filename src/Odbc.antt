-- ===== src/Odbc.antt =====
-- db/odbc_db.{h,cpp}: the data layer over ODBC. The driver is a parameter: a function from a
-- statement and its bound parameters to what the ODBC calls of the statement answer. The
-- diagnostic text `m_err` is not modelled, since it is only logged, and the handles are kept as
-- the Boolean tests that the code makes of them.
pub mod Params
pub mod Kinds
pub mod Results
use ran_online.Base.{ℕ, List, [], Bool, false, true, Option}
use ran_online.Base.Int.{ℤ}

-- One accumulated parameter. `ind` is `none` for SQL_NULL_DATA, else the length; the type codes and
-- the column size are passed through to the driver.
pub record Param : Type 0 where
  pub name : List ℕ
  pub io_type : Bool
  pub is_return : Bool
  pub sql_type : ℕ
  pub column_size : ℕ
  pub buf : List ℕ
  pub ind : Option ℕ

-- What SQLGetData gives for a column, by the type asked for; `none` stands for NULL and for an
-- error, which the code treats alike. A text has at most 4095 bytes: with a longer one, the code
-- reads past the end of its buffer.
pub record Datum : Type 0 where
  pub as_text : Option (List ℕ)
  pub as_int : Option ℤ
  pub as_bigint : Option ℤ

-- The answers of SQLAllocHandle, SQLPrepare, SQLBindParameter (of all parameters) and SQLExecute or
-- SQLExecDirect; the result set; and what the driver writes to the parameter of a number once the
-- results are drained.
pub record Answer : Type 0 where
  pub alloc_ok : Bool
  pub prepare_ok : Bool
  pub bind_ok : Bool
  pub execute_ok : Bool
  pub columns : List (List ℕ)
  pub rows : List (List Datum)
  pub written : ℕ → Option (List ℕ)

abbrev pub Driver : Type 0
Driver = List ℕ → List Param → Answer

-- `rows` starts with the row the cursor is on, unless `eof`.
pub record OdbcDb : Type 0 where
  pub conn : Bool
  pub stmt : Bool
  pub eof : Bool
  pub results_drained : Bool
  pub params_executed : Bool
  pub cols : List (List ℕ)
  pub rows : List (List Datum)
  pub params : List Param
  pub written : ℕ → Option (List ℕ)
