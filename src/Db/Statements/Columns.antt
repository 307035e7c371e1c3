-- ===== src/Db/Statements/Columns.antt =====
-- db/itable.{h,cpp}: the columns read as the types that GetColumnValue has overloads for, and lists of
-- them.
use iexapitest.Base.{Bool, Exec, List, Text, [], codes, pure, ℕ, ℤ, ◌++◌, ◌>>=◌, ◌∷◌}
use iexapitest.Db.Sqlite.{Sqlite, Value}
use iexapitest.Db.Statements.{Statement, create_get_field_query, is_set, make_statement}

-- The types of the overloads of GetColumnValue
pub data ColumnType : Type 0 where
  string_type : ColumnType
  int_type : ColumnType
  int64_type : ColumnType
  uint_type : ColumnType
  bool_type : ColumnType

abbrev pub ColumnOf : ColumnType → Type 0
ColumnOf string_type = Text
ColumnOf int_type = ℤ
ColumnOf int64_type = ℤ
ColumnOf uint_type = ℕ
ColumnOf bool_type = Bool

module _ (S : Sqlite) where
  open S use {Database, Real, run}

  -- `GetColumnValue`
  unfoldable pub get_column_value : (c : ColumnType) → Value Real → ColumnOf c
  unfolding is_set
  get_column_value string_type v = S.get_string v
  get_column_value int_type v = S.get_int v
  get_column_value int64_type v = S.get_int64 v
  get_column_value uint_type v = S.get_uint v
  get_column_value bool_type v = is_set S v

  -- The loop over `executeStep`. A NULL is converted like any other value.
  unfoldable pub column_values : (c : ColumnType) → List (Value Real) → List (ColumnOf c)
  unfolding get_column_value
  column_values c [] = []
  column_values c (v ∷ vs) = get_column_value c v ∷ column_values c vs

  -- `CreateGetFieldQuery(fieldName)`
  unfoldable pub create_field_query : Text → Text → Exec Database (Statement Real)
  unfolding make_statement
  create_field_query table field_name =
      make_statement S (codes "SELECT " ++ (field_name ++ (codes " FROM " ++ table))) []

  -- `GetFieldValueList(fieldName)`
  unfoldable pub get_field_list : (c : ColumnType) → Text → Text → Exec Database (List (ColumnOf c))
  unfolding create_field_query column_values
  get_field_list c table field_name = do
    query ← create_field_query table field_name
    values ← run query.cmd query.binds
    pure (column_values c values)

  -- `GetFieldValueList(fieldName, filterFieldName, value)`
  unfoldable pub get_filtered_list :
      (c : ColumnType) → Text → Text → Text → Value Real → Exec Database (List (ColumnOf c))
  unfolding create_get_field_query column_values
  get_filtered_list c table field_name filter_field_name value = do
    query ← create_get_field_query S table field_name filter_field_name value
    values ← run query.cmd query.binds
    pure (column_values c values)
