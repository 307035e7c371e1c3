-- ===== src/Db/Statements.antt =====
-- db/itable.{h,cpp}, class ITable: texts, transactions and look-ups that the tables share. The mutex
-- of all tables is recursive and held by each operation to its end, so that operations of several
-- threads come one after another.
pub mod Columns
pub mod Lists
use iexapitest.Base.{
  Bool, Exception, Exec, List, Option, Result, Text, [], codes, err, foreign, halt, if◌then◌else◌,
  lift, map, negsuc, none, not, ok, pos, pure, some, suc, throw, to_decimal, true, ℤ, ◌++◌, ◌==◌,
  ◌>>=◌, ◌>>◌, ◌∷◌,
}
use iexapitest.Db.Fields.{get_field_value}
use iexapitest.Db.Sqlite.{Binds, Sqlite, Value, integer, text}

-- A prepared statement with its bound values
pub record Statement (Real : Type 0) : Type 0 where
  pub cmd : Text
  pub binds : Binds Real

-- The exception of `getColumn` where `executeStep` gave no row
abbrev pub no_row : Exception
no_row =
    foreign (codes "No row to get a column from. executeStep() was not called, or returned false.")

-- `<<` of an int64_t
unfoldable pub show_int : ℤ → Text
show_int (pos n) = to_decimal n
show_int (negsuc n) = codes "-" ++ to_decimal (suc n)

abbrev pub is_nonzero : ℤ → Bool
is_nonzero (pos n) = not (n == 0)
is_nonzero (negsuc n) = true

module _ (S : Sqlite) where
  open S use {Database, Real, prepare, run, table_exists, begin, commit, rollback}

  -- The destructor of a Transaction that was not committed. It swallows what `rollback` throws.
  abbrev pub or_rollback : Result (Unit {0}) × Database → Result (Unit {0}) × Database
  or_rollback (ok a, d) = (ok a, d)
  or_rollback (err e, d) = (err e, (rollback d).1)
  or_rollback (halt f, d) = (halt f, d)

  unfoldable pub in_transaction : Exec Database (Unit {0}) → Exec Database (Unit {0})
  in_transaction m = begin >> (λ d. or_rollback ((m >> commit) d))

  -- `RunTransaction(cmd)`
  unfoldable pub run_transaction : Text → Exec Database (Unit {0})
  unfolding in_transaction
  run_transaction cmd = in_transaction (run cmd [] >> pure tt)

  -- `RunTransaction(statement)`
  unfoldable pub run_statement : Statement Real → Exec Database (Unit {0})
  unfolding in_transaction
  run_statement statement = in_transaction (run statement.cmd statement.binds >> pure tt)

  -- The constructor of SQLite::Statement, and `bind`
  unfoldable pub make_statement : Text → Binds Real → Exec Database (Statement Real)
  make_statement cmd binds = prepare cmd >> pure (record { cmd = cmd; binds = binds })

  unfoldable pub first_column : List (Value Real) → Exec Database (Value Real)
  first_column [] = throw no_row
  first_column (v ∷ vs) = pure v

  -- `execAndGet`
  unfoldable pub exec_and_get : Text → Exec Database (Value Real)
  unfolding first_column
  exec_and_get cmd = prepare cmd >> run cmd [] >>= first_column

  -- `IsExist`
  unfoldable pub is_exist : Text → Exec Database Bool
  is_exist table = table_exists table

  unfoldable pub drop_existing : Text → Exec Database (Unit {0})
  unfolding run_transaction
  drop_existing table = run_transaction (codes "DROP TABLE IF EXISTS " ++ table)

  -- `RemoveAll`, which makes a text and sends it nowhere
  unfoldable pub remove_all : Text → Exec Database (Unit {0})
  remove_all table = let cmd = codes "DELETE FROM " ++ table in pure tt

  -- `getInt() != 0`
  unfoldable pub is_set : Value Real → Bool
  is_set v = is_nonzero (S.get_int v)

  unfoldable pub is_cell_present : Text → Text → Text → Exec Database Bool
  unfolding exec_and_get is_set
  is_cell_present table field_name compare_value =
      exec_and_get (
        codes "SELECT EXISTS(SELECT 1 FROM "
        ++ (table
            ++ (codes " "
                ++ (codes "WHERE "
                    ++ (field_name
                        ++ (codes " = \""
                            ++ (compare_value ++ (codes "\" " ++ codes "LIMIT 1)"))))))))
      >>= λ v. pure (is_set v)

  -- `CreateGetFieldQuery(fieldName, filterFieldName, value)`
  unfoldable pub create_get_field_query :
      Text → Text → Text → Value Real → Exec Database (Statement Real)
  unfolding make_statement
  create_get_field_query table field_name filter_field_name value =
      make_statement
        (codes "SELECT "
          ++ (field_name
              ++ (codes " FROM "
                  ++ (table
                      ++ (codes " "
                          ++ (codes "WHERE "
                              ++ (filter_field_name ++ codes " = :compareValue")))))))
        ((codes ":compareValue", value) ∷ [])

  -- A column that is read as a text, or is NULL
  unfoldable pub text_or_null : Value Real → Option Text
  text_or_null v = if S.is_null v then none else some (S.get_string v)

  -- `GetFieldValue<string, long long>`
  unfoldable pub get_text_field : Text → Text → Text → ℤ → Exec Database Text
  unfolding create_get_field_query text_or_null
  get_text_field table field_name filter_field_name value = do
    query ← create_get_field_query table field_name filter_field_name (integer value)
    values ← run query.cmd query.binds
    lift (get_field_value filter_field_name (show_int value) (map text_or_null values))

  -- `UpdateField<string, long long>`
  unfoldable pub update_field : Text → Text → Text → Text → ℤ → Exec Database (Unit {0})
  unfolding make_statement run_statement
  update_field table field_name new_value search_field_name search_value = do
    query ←
        make_statement
          (codes "UPDATE "
            ++ (table
                ++ (codes " SET "
                    ++ (field_name
                        ++ (codes " = :newValue "
                            ++ (codes "WHERE "
                                ++ (search_field_name ++ codes " = :searchValue")))))))
          ((codes ":newValue", text new_value) ∷ (codes ":searchValue", integer search_value) ∷ [])
    run_statement query

  -- `RemoveRows<long long>`
  unfoldable pub remove_rows : Text → Text → ℤ → Exec Database (Unit {0})
  unfolding make_statement run_statement
  remove_rows table search_field_name search_value = do
    query ←
        make_statement
          (codes "DELETE FROM "
            ++ (table
                ++ (codes " "
                    ++ (codes "WHERE " ++ (search_field_name ++ codes " = :searchValue")))))
          ((codes ":searchValue", integer search_value) ∷ [])
    run_statement query
