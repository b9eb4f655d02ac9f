-- ===== src/Odbc/Kinds.antt =====
-- The parameter kinds of db/odbc_db.cpp that no server uses yet, and the read-back of 64-bit numbers
-- and texts.
use ran_online.Base.{
  ℕ, zero, suc, ◌+◌, ◌*◌, ◌/◌, ◌%◌, ◌^◌, List, [], ◌∷◌, ◌++◌, true, false, Option, some, none,
}
use ran_online.Base.{length, take, drop, replicate, if◌then◌else◌, ltb, min}
use ran_online.Base.Int.{ℤ, pos, negsuc, to_word, of_word}
use ran_online.Packet.{write_le32, read_le32}
use ran_online.Odbc.{Param, OdbcDb}
use ran_online.Odbc.Params.{add_param, sql_varchar}
use ran_online.Odbc.Results.{drain_results, find_param}

abbrev pub sql_bigint : ℕ
sql_bigint = 25

abbrev pub sql_tinyint : ℕ
sql_tinyint = 26

abbrev pub sql_smallint : ℕ
sql_smallint = 5

abbrev pub sql_double : ℕ
sql_double = 8

-- `fillInput`: the bytes of the value, and their number.
unfoldable pub fill_input : List ℕ → ℕ → ℕ → List ℕ → Param
fill_input name sql_type column_size bytes = record {
  name = name;
  io_type = false;
  is_return = false;
  sql_type = sql_type;
  column_size = column_size;
  buf = bytes;
  ind = some (length bytes);
}

-- `fillOutput`: a buffer of zeros, NULL until the driver writes.
unfoldable pub fill_output : List ℕ → ℕ → ℕ → ℕ → Param
fill_output name sql_type column_size capacity = record {
  name = name;
  io_type = true;
  is_return = false;
  sql_type = sql_type;
  column_size = column_size;
  buf = replicate capacity 0;
  ind = none;
}

-- The bytes of a 64-bit word in memory.
unfoldable pub write_le64 : ℕ → List ℕ
write_le64 v = write_le32 (v % 2 ^ 32) ++ write_le32 (v / 2 ^ 32 % 2 ^ 32)

unfoldable pub read_le64 : List ℕ → ℕ
read_le64 bytes = read_le32 bytes + read_le32 (drop 4 bytes) * 2 ^ 32

unfoldable pub append_iparam_bigint : List ℕ → ℤ → OdbcDb → OdbcDb
unfolding fill_input write_le64
append_iparam_bigint name var =
    add_param (fill_input name sql_bigint 19 (write_le64 (to_word 64 var)))

unfoldable pub append_oparam_bigint : List ℕ → OdbcDb → OdbcDb
unfolding fill_output
append_oparam_bigint name = add_param (fill_output name sql_bigint 19 8)

-- `var` is an `unsigned char`.
unfoldable pub append_iparam_tinyint : List ℕ → ℕ → OdbcDb → OdbcDb
unfolding fill_input
append_iparam_tinyint name var = add_param (fill_input name sql_tinyint 3 ((var % 2 ^ 8) ∷ []))

unfoldable pub append_oparam_tinyint : List ℕ → OdbcDb → OdbcDb
unfolding fill_output
append_oparam_tinyint name = add_param (fill_output name sql_tinyint 3 1)

-- `var` is an `unsigned short`, whose two bytes the cast to `short` keeps.
unfoldable pub append_iparam_small : List ℕ → ℕ → OdbcDb → OdbcDb
unfolding fill_input
append_iparam_small name var =
    add_param (fill_input name sql_smallint 5 ((var % 2 ^ 8) ∷ (var / 2 ^ 8 % 2 ^ 8) ∷ []))

unfoldable pub append_oparam_small : List ℕ → OdbcDb → OdbcDb
unfolding fill_output
append_oparam_small name = add_param (fill_output name sql_smallint 5 2)

unfoldable pub out_capacity : ℤ → ℕ
out_capacity (pos zero) = 256
out_capacity (pos (suc n)) = suc n
out_capacity (negsuc n) = 256

-- `size` characters, 256 where it is 0 or negative, and a zero behind them.
unfoldable pub append_oparam_varchar : List ℕ → ℤ → OdbcDb → OdbcDb
unfolding fill_output out_capacity
append_oparam_varchar name size =
    let cap = out_capacity size in add_param (fill_output name sql_varchar cap (cap + 1))

-- A `double` is given by its eight bytes in memory.
unfoldable pub append_iparam_float : List ℕ → List ℕ → OdbcDb → OdbcDb
unfolding fill_input
append_iparam_float name double_bytes = add_param (fill_input name sql_double 15 double_bytes)

unfoldable pub append_oparam_float : List ℕ → OdbcDb → OdbcDb
unfolding fill_output
append_oparam_float name = add_param (fill_output name sql_double 15 8)

-- The value of a `long long` parameter: `none` where GetParam returns false.
unfoldable pub bigint_param : Option Param → Option ℤ
bigint_param none = none
bigint_param (some p) = elim p.ind [
  | none ↦ none
  | some n ↦ if ltb (length p.buf) 8 then none else some (of_word 63 (read_le64 p.buf))
]

-- The value of a text parameter: its length is cut to the buffer.
unfoldable pub text_param : Option Param → Option (List ℕ)
text_param none = none
text_param (some p) = elim p.ind [ none ↦ none | some n ↦ some (take (min n (length p.buf)) p.buf) ]

unfoldable pub drained : OdbcDb → OdbcDb
drained db = if db.results_drained then db else drain_results db

unfoldable pub get_param_bigint : List ℕ → OdbcDb → OdbcDb × Option ℤ
unfolding drained bigint_param
get_param_bigint name db = (drained db, bigint_param (find_param name (drained db).params))

unfoldable pub get_param_text : List ℕ → OdbcDb → OdbcDb × Option (List ℕ)
unfolding drained text_param
get_param_text name db = (drained db, text_param (find_param name (drained db).params))
