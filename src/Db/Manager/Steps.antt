-- ===== src/Db/Manager/Steps.antt =====
-- What each operation of the manager does to the tables.
use iexapitest.Base.{
  List, Text, [], arith, codes, err, false, is_empty, lookup, map, none, not, ok, pos, pure, refl,
  some, text_eq, to_decimal, true, ℕ, ◌++◌, ◌<◌, ◌>>=◌, ◌^◌, ◌∙◌, ◌∷◌, ◌≡◌,
}
use iexapitest.Db.Sqlite.{Sqlite, integer}
use iexapitest.Db.Sqlite.Meaning.{
  Query, Row, Table, Tables, any_row, create_table, drop_table, empty_table, ensure_table,
  exists_value, field_of, fits, insert, insert_into, is_null_value, is_typed, keep_rows, literal,
  malformed, meaning, new_row, on_table-some, preparing, put_table, select, select_exists,
  syntax_error, violates,
}
use iexapitest.Db.Sqlite.Reading.{
  Reads, company_columns, price_columns, reads_fixed, version_columns,
}
use iexapitest.Db.Sqlite.Engine.{IsDocumented}
use iexapitest.Db.Sqlite.Runs.{
  Runs, Runs-then, exec_and_get-Runs, in_transaction_failed, run_transaction-Runs,
}
use iexapitest.Db.Statements.{drop_existing, exec_and_get, is_set, run_transaction}
use iexapitest.Db.Companies.{companies_table, create_companies, create_companies_text, id_field}
use iexapitest.Db.Prices.{create_prices, create_prices_text, prices_table}
use iexapitest.Db.Version.{
  create_version, create_version_text, get_db_version, insert_version, is_version_present,
  update_db_version, version_field, version_table,
}
use iexapitest.Db.Manager.{db_version}

module _ {Real : Type 0} where
  abbrev pub version_row : ℕ → ℕ → Row Real
  version_row id version =
      (id_field, integer (pos id)) ∷ (version_field, integer (pos version)) ∷ []

  -- The table of versions after the first creation
  abbrev pub first_table : Table Real
  first_table = record { columns = version_columns; rows = version_row 1 1 ∷ []; last_id = 1 }

  abbrev pub first_version : Tables Real → Tables Real
  first_version t =
      put_table version_table (some first_table)
        (put_table version_table (some (empty_table version_columns)) t)

  abbrev pub created : Tables Real → Tables Real
  created t =
      ensure_table prices_table price_columns (ensure_table companies_table company_columns t)

  abbrev pub emptied : Tables Real → Tables Real
  emptied t =
      put_table prices_table none (put_table companies_table none (put_table version_table none t))

  -- The three tables as they are at the first start
  abbrev pub fresh : Tables Real → Tables Real
  fresh t = created (first_version (emptied t))

module _ (S : Sqlite) (law : IsDocumented S) where
  open S use {Real}

  abbrev create_version_query : Query Real
  create_version_query = create_table version_table version_columns

  abbrev create_companies_query : Query Real
  create_companies_query = create_table companies_table company_columns

  abbrev create_prices_query : Query Real
  create_prices_query = create_table prices_table price_columns

  pub create_version-Runs :
      (t : Tables Real)
      → Runs S law t (create_version S) (ok tt) (ensure_table version_table version_columns t)
  unfolding create_version meaning is_typed lookup text_eq
  create_version-Runs t =
      run_transaction-Runs S law create_version_text create_version_query t
        (ensure_table version_table version_columns t) []
        (reads_fixed create_version_text create_version_query refl) refl refl

  pub create_companies-Runs :
      (t : Tables Real)
      → Runs S law t (create_companies S) (ok tt) (ensure_table companies_table company_columns t)
  unfolding create_companies meaning is_typed lookup text_eq
  create_companies-Runs t =
      run_transaction-Runs S law create_companies_text create_companies_query t
        (ensure_table companies_table company_columns t) []
        (reads_fixed create_companies_text create_companies_query refl) refl refl

  pub create_prices-Runs :
      (t : Tables Real)
      → Runs S law t (create_prices S) (ok tt) (ensure_table prices_table price_columns t)
  unfolding create_prices meaning is_typed lookup text_eq
  create_prices-Runs t =
      run_transaction-Runs S law create_prices_text create_prices_query t
        (ensure_table prices_table price_columns t) []
        (reads_fixed create_prices_text create_prices_query refl) refl refl

  pub drop-Runs :
      (name : Text) (t : Tables Real)
      → Reads Real (codes "DROP TABLE IF EXISTS " ++ name) (drop_table name)
      → Runs S law t (drop_existing S name) (ok tt) (put_table name none t)
  unfolding drop_existing meaning is_typed
  drop-Runs name t reads =
      run_transaction-Runs S law (codes "DROP TABLE IF EXISTS " ++ name) (drop_table name) t
        (put_table name none t) [] reads refl refl

  pub version_present-Runs :
      (t : Tables Real) (tab : Table Real)
      → t version_table ≡ some tab
      → Runs S law t (is_version_present S) (ok (not (is_empty tab.rows))) t
  unfolding is_version_present is_set meaning is_typed preparing lookup text_eq any_row
  version_present-Runs t tab there = go tab.rows (
      exec_and_get-Runs S law (codes "SELECT EXISTS(SELECT 1 FROM db_version LIMIT 1)") q t
        (exists_value (any_row (fits [] none) tab.rows) ∷ [])
        (reads_fixed (codes "SELECT EXISTS(SELECT 1 FROM db_version LIMIT 1)") q refl) refl
        (on_table-some version_table t (λ x. (ok tt, t)) tab there)
        (on_table-some version_table t
          (λ x. (ok (exists_value (any_row (fits [] none) x.rows) ∷ []), t)) tab there))
    where
      q : Query Real
      q = select_exists version_table none

      cmd : Text
      cmd = codes "SELECT EXISTS(SELECT 1 FROM db_version LIMIT 1)"

      go :
          (rows : List (Row Real))
          → Runs S law t (exec_and_get S cmd) (ok (exists_value (any_row (fits [] none) rows))) t
          → Runs S law t
              (exec_and_get S cmd >>= λ v. pure (is_set S v))
              (ok (not (is_empty rows)))
              t
      go [] ran =
          Runs-then S law (exec_and_get S cmd) (λ v. pure (is_set S v)) (integer (pos 0)) (ok false)
            t t t ran (λ d e. (rw (law.get_int_lem 0 (omega arith)) refl, e))
      go (row ∷ rows) ran =
          Runs-then S law (exec_and_get S cmd) (λ v. pure (is_set S v)) (integer (pos 1)) (ok true)
            t t t ran (λ d e. (rw (law.get_int_lem 1 (omega arith)) refl, e))

  insert_query : Query Real
  insert_query = insert false version_table ((version_field, literal (integer (pos 1))) ∷ [])

  pub insert_version-Runs :
      (t : Tables Real)
      → t version_table ≡ some (empty_table version_columns)
      → Runs S law t
          (insert_version S db_version)
          (ok tt)
          (put_table version_table (some first_table) t)
  unfolding insert_version insert_query meaning is_typed insert_into new_row violates is_null_value
      any_row lookup text_eq to_decimal
  insert_version-Runs t there =
      run_transaction-Runs S law (codes "INSERT INTO db_version (version)VALUES (1)") insert_query t
        (put_table version_table (some first_table) t) []
        (reads_fixed (codes "INSERT INTO db_version (version)VALUES (1)") insert_query refl) refl
        (on_table-some version_table t
          (λ x.
            insert_into law.gap false version_table []
              ((version_field, literal (integer (pos 1))) ∷ []) x t)
          (empty_table version_columns) there)

  -- The version that is read is that of the first row.
  pub get_db_version-Runs :
      (t : Tables Real) (tab : Table Real) (id version : ℕ) (rows : List (Row Real))
      → t version_table ≡ some tab
      → tab.rows ≡ version_row id version ∷ rows
      → version < 2 ^ 32
      → Runs S law t (get_db_version S) (ok version) t
  unfolding get_db_version meaning is_typed preparing lookup text_eq keep_rows
  get_db_version-Runs t tab id version rows there first small =
      Runs-then S law (exec_and_get S cmd) (λ v. pure (S.get_uint v)) (integer (pos version))
        (ok version) t t t
        (exec_and_get-Runs S law cmd q t
          (integer (pos version) ∷ map (field_of version_field) (keep_rows (fits [] none) rows))
          (reads_fixed cmd q refl) refl (on_table-some version_table t (λ x. (ok tt, t)) tab there)
          (on_table-some version_table t
              (λ x. (ok (map (field_of version_field) (keep_rows (fits [] none) x.rows)), t)) tab
              there
            ∙ rw first refl))
        (λ d e. (rw (law.get_uint_lem version small) refl, e))
    where
      q : Query Real
      q = select version_field version_table none

      cmd : Text
      cmd = codes "SELECT version FROM db_version"

  -- The text of an upgrade is no SQL.
  pub update_db_version_fails :
      (t : Tables Real) → Runs S law t (update_db_version S db_version) (err syntax_error) t
  unfolding update_db_version run_transaction meaning is_typed to_decimal lookup text_eq
  update_db_version_fails t =
      in_transaction_failed S law (codes "UPDATE db_versionSET version = 1") malformed [] t t
        syntax_error (reads_fixed (codes "UPDATE db_versionSET version = 1") malformed refl) refl
        refl
