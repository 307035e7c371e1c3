-- ===== src/Db/Sqlite.antt =====
-- SQLite behind SQLiteCpp: an unknown engine that is given texts, and what its documentation says of
-- the statements that the program sends, as an engine of tables.
pub mod Meaning
pub mod Reading
pub mod Engine
pub mod Runs
use iexapitest.Base.{Bool, Exec, List, Text, ℕ, ℤ}

-- The storage classes but BLOB. What a REAL is, the program leaves to the engine; it is no NaN, which
-- SQLite stores as NULL.
pub data Value (Real : Type 0) : Type 0 where
  null : Value Real
  integer : ℤ → Value Real
  real : Real → Value Real
  text : Text → Value Real

-- What is bound to the parameters of a statement.
abbrev pub Binds : Type 0 → Type 0
Binds Real = List (Text × Value Real)

-- A connection. `prepare` is the constructor of SQLite::Statement. `run` gives the first column of
-- every row. The conversions are those of SQLite::Column.
pub record Sqlite : Type 1 where
  pub Database : Type 0
  pub Real : Type 0
  pub prepare : Text → Exec Database (Unit {0})
  pub run : Text → Binds Real → Exec Database (List (Value Real))
  pub table_exists : Text → Exec Database Bool
  pub begin : Exec Database (Unit {0})
  pub commit : Exec Database (Unit {0})
  pub rollback : Exec Database (Unit {0})
  pub get_string : Value Real → Text
  pub get_int : Value Real → ℤ
  pub get_int64 : Value Real → ℤ
  pub get_uint : Value Real → ℕ
  pub is_null : Value Real → Bool
