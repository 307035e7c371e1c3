-- ===== src/Db/Sqlite/Meaning.antt =====
-- What the documentation of SQLite says that the statements do, on tables as lists of rows. FOREIGN
-- KEY clauses have no effect: the pragma that would turn them on is ignored inside a transaction.
use iexapitest.Base.{
  Bool, Exception, Exec, List, Option, Result, Text, TextMap, [], ap, codes, err, false, foreign,
  if◌then◌else◌, lookup, map, negsuc, none, not, ok, pos, some, suc, text_eq, true, ℕ, ℤ, ◌&&◌,
  ◌++◌, ◌==◌, ◌||◌, ◌∷◌, ◌≡◌,
}
use iexapitest.Db.Sqlite.{Binds, Value, integer, null, real, text}

-- `is_id` is INTEGER PRIMARY KEY AUTOINCREMENT.
pub record Column : Type 0 where
  pub name : Text
  pub is_id : Bool
  pub not_null : Bool
  pub unique : Bool

module _ (Real : Type 0) where
  abbrev pub Row : Type 0
  Row = TextMap (Value Real)

  -- `last_id` is what sqlite_sequence holds. The id of a new row is the next number.
  pub record Table : Type 0 where
    pub columns : List Column
    pub rows : List Row
    pub last_id : ℕ

  abbrev pub Tables : Type 0
  Tables = Text → Option Table

  pub data Operand : Type 0 where
    bound : Text → Operand
    literal : Value Real → Operand

  -- CREATE TABLE IF NOT EXISTS, DROP TABLE IF EXISTS, INSERT (OR IGNORE where the flag is set), SELECT
  -- of a column and of EXISTS, UPDATE of a column
  -- without constraints, DELETE. A condition says that a column is equal to
  -- an operand. `malformed` stands for a text that is no SQL.
  pub data Query : Type 0 where
    create_table : Text → List Column → Query
    drop_table : Text → Query
    insert : Bool → Text → List (Text × Operand) → Query
    select : Text → Text → Option (Text × Operand) → Query
    select_exists : Text → Option (Text × Operand) → Query
    update : Text → Text → Operand → Text × Operand → Query
    delete : Text → Text × Operand → Query
    malformed : Query

-- An SQLite::Exception
abbrev pub sqlite_error : Text → Exception
sqlite_error m = foreign (codes "SQLite: " ++ m)

abbrev pub syntax_error : Exception
syntax_error = sqlite_error (codes "syntax error")

abbrev pub no_such_table : Text → Exception
no_such_table name = sqlite_error (codes "no such table: " ++ name)

abbrev pub constraint_failed : Exception
constraint_failed = sqlite_error (codes "constraint failed")

abbrev pub value_or_null : {Real : Type 0} → Option (Value Real) → Value Real
value_or_null none = null
value_or_null (some v) = v

unfoldable pub int_eq : ℤ → ℤ → Bool
int_eq (pos m) (pos n) = m == n
int_eq (negsuc m) (negsuc n) = m == n
int_eq _ _ = false

module _ {Real : Type 0} where
  -- `=` of values that are no REAL; NULL is equal to nothing.
  unfoldable pub value_eq : Value Real → Value Real → Bool
  unfolding int_eq
  value_eq (integer m) (integer n) = int_eq m n
  value_eq (text s) (text t) = text_eq s t
  value_eq _ _ = false

  unfoldable pub is_null_value : Value Real → Bool
  is_null_value null = true
  is_null_value _ = false

  abbrev pub operand_value : Binds Real → Operand Real → Value Real
  operand_value binds (bound name) = value_or_null (lookup name binds)
  operand_value binds (literal v) = v

  abbrev pub field_of : Text → Row Real → Value Real
  field_of name row = value_or_null (lookup name row)

  abbrev pub fits : Binds Real → Option (Text × Operand Real) → Row Real → Bool
  fits binds none row = true
  fits binds (some (name, operand)) row = value_eq (field_of name row) (operand_value binds operand)

  unfoldable pub keep_rows : (Row Real → Bool) → List (Row Real) → List (Row Real)
  keep_rows test [] = []
  keep_rows test (row ∷ rows) =
      let rest = keep_rows test rows in if test row then row ∷ rest else rest

  unfoldable pub any_row : (Row Real → Bool) → List (Row Real) → Bool
  any_row test [] = false
  any_row test (row ∷ rows) = test row || any_row test rows

  -- The row that INSERT makes.
  unfoldable pub new_row : ℕ → Binds Real → List (Text × Operand Real) → List Column → Row Real
  new_row id binds given [] = []
  new_row id binds given (c ∷ columns) =
      (
        c.name,
        (if c.is_id
            then integer (pos id)
            else elim (lookup c.name given) [ none ↦ null | some o ↦ operand_value binds o ]),
      )
      ∷ new_row id binds given columns

  -- NOT NULL, and UNIQUE against the rows that are there
  unfoldable pub violates : List Column → List (Row Real) → Row Real → Bool
  unfolding is_null_value any_row value_eq
  violates [] rows row = false
  violates (c ∷ columns) rows row =
      (c.not_null && is_null_value (field_of c.name row))
      || (c.unique && any_row (λ r. value_eq (field_of c.name r) (field_of c.name row)) rows)
      || violates columns rows row

  unfoldable pub set_field : Text → Value Real → Row Real → Row Real
  set_field name v [] = []
  set_field name v ((n, w) ∷ row) =
      let rest = set_field name v row in if text_eq n name then (n, v) ∷ row else (n, w) ∷ rest

  abbrev pub update_row : (Row Real → Bool) → Text → Value Real → Row Real → Row Real
  update_row test name v row = if test row then set_field name v row else row

  abbrev pub put_table : Text → Option (Table Real) → Tables Real → Tables Real
  put_table name t tables n = if text_eq n name then t else tables n

  abbrev pub empty_table : List Column → Table Real
  empty_table columns = record { columns = columns; rows = []; last_id = 0 }

  abbrev pub unless_there {ℓ} : {A : Type ℓ} → Option (Table Real) → A → A → A
  unless_there none new old = new
  unless_there (some t) new old = old

  -- The table is made where it is not there.
  abbrev pub ensure_table : Text → List Column → Tables Real → Tables Real
  ensure_table name columns tables =
      unless_there (tables name) (put_table name (some (empty_table columns)) tables) tables

  -- INSERT into a table that is there. An ignored one leaves a gap in the ids: `gap` gives what
  -- sqlite_sequence holds then.
  unfoldable pub insert_into :
      (ℕ → ℕ)
      → Bool
      → Text
      → Binds Real
      → List (Text × Operand Real)
      → Table Real
      → Exec (Tables Real) (List (Value Real))
  unfolding new_row violates
  insert_into gap or_ignore name binds given t tables =
      let row = new_row (suc t.last_id) binds given t.columns in
      if violates t.columns t.rows row
      then if or_ignore
        then (ok [], put_table name (some (record t { last_id = gap t.last_id })) tables)
        else (err constraint_failed, tables)
      else (
        ok [],
        put_table name (some (record t { rows = t.rows ++ row ∷ []; last_id = suc t.last_id }))
            tables,
      )

  abbrev pub on_table :
      {A : Type 0}
      → Text
      → Tables Real
      → (Table Real → Result A × Tables Real)
      → Result A × Tables Real
  on_table name tables f = elim (tables name) [
    | none ↦ (err (no_such_table name), tables)
    | some t ↦ f t
  ]

  pub on_table-some :
      {A : Type 0} (name : Text) (tables : Tables Real) (f : Table Real → Result A × Tables Real)
      (t : Table Real)
      → tables name ≡ some t
      → on_table name tables f ≡ f t
  on_table-some name tables f t e =
      ap (λ o. elim o [ none ↦ (err (no_such_table name), tables) | some t' ↦ f t' ]) e

  abbrev pub exists_value : Bool → Value Real
  exists_value b = integer (pos (if b then 1 else 0))

  unfoldable pub meaning :
      (ℕ → ℕ) → Query Real → Binds Real → Exec (Tables Real) (List (Value Real))
  unfolding keep_rows any_row insert_into set_field
  meaning gap (create_table name columns) binds tables = (ok [], ensure_table name columns tables)
  meaning gap (drop_table name) binds tables = (ok [], put_table name none tables)
  meaning gap (insert or_ignore name given) binds tables =
      on_table name tables (λ t. insert_into gap or_ignore name binds given t tables)
  meaning gap (select column name condition) binds tables =
      on_table name tables
        (λ t. (ok (map (field_of column) (keep_rows (fits binds condition) t.rows)), tables))
  meaning gap (select_exists name condition) binds tables =
      on_table name tables
        (λ t. (ok (exists_value (any_row (fits binds condition) t.rows) ∷ []), tables))
  meaning gap (update name column operand condition) binds tables = on_table name tables (λ t. (
    ok [],
    put_table name
        (some (record t {
          rows =
              map (update_row (fits binds (some condition)) column (operand_value binds operand))
                t.rows;
        }))
        tables,
  ))
  meaning gap (delete name condition) binds tables = on_table name tables (λ t. (
    ok [],
    put_table name
        (some (record t { rows = keep_rows (λ row. not (fits binds (some condition) row)) t.rows }))
        tables,
  ))
  meaning gap malformed binds tables = (err syntax_error, tables)

  -- A value of the kind that the column is declared with, so that it is stored as it is
  unfoldable pub has_kind : Text → Value Real → Bool
  unfolding text_eq
  has_kind name null = true
  has_kind name (real x) = text_eq name (codes "price")
  has_kind name (text s) =
      text_eq name (codes "uuid") || text_eq name (codes "full_name") || text_eq name (codes "logo")
  has_kind name (integer n) =
      text_eq name (codes "id")
      || text_eq name (codes "version")
      || text_eq name (codes "timestamp")
      || text_eq name (codes "company_rowid")

  unfoldable pub operand_has_kind : Binds Real → Text × Operand Real → Bool
  unfolding has_kind
  operand_has_kind binds (name, operand) = has_kind name (operand_value binds operand)

  unfoldable pub all_have_kind : Binds Real → List (Text × Operand Real) → Bool
  unfolding operand_has_kind
  all_have_kind binds [] = true
  all_have_kind binds (given ∷ others) = operand_has_kind binds given && all_have_kind binds others

  unfoldable pub condition_has_kind : Binds Real → Option (Text × Operand Real) → Bool
  unfolding operand_has_kind
  condition_has_kind binds none = true
  condition_has_kind binds (some condition) = operand_has_kind binds condition

  -- Every value of the statement is of the kind of its column, so that no affinity applies.
  unfoldable pub is_typed : Query Real → Binds Real → Bool
  unfolding operand_has_kind all_have_kind condition_has_kind
  is_typed (insert or_ignore name given) binds = all_have_kind binds given
  is_typed (select column name condition) binds = condition_has_kind binds condition
  is_typed (select_exists name condition) binds = condition_has_kind binds condition
  is_typed (update name column operand condition) binds =
      operand_has_kind binds (column, operand) && operand_has_kind binds condition
  is_typed (delete name condition) binds = operand_has_kind binds condition
  is_typed _ binds = true

  -- What preparing a statement looks for
  unfoldable pub preparing : Query Real → Exec (Tables Real) (Unit {0})
  preparing (create_table name columns) tables = (ok tt, tables)
  preparing (drop_table name) tables = (ok tt, tables)
  preparing malformed tables = (err syntax_error, tables)
  preparing (insert or_ignore name given) tables = on_table name tables (λ t. (ok tt, tables))
  preparing (select column name condition) tables = on_table name tables (λ t. (ok tt, tables))
  preparing (select_exists name condition) tables = on_table name tables (λ t. (ok tt, tables))
  preparing (update name column o condition) tables = on_table name tables (λ t. (ok tt, tables))
  preparing (delete name condition) tables = on_table name tables (λ t. (ok tt, tables))
