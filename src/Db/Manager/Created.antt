-- ===== src/Db/Manager/Created.antt =====
-- The tables after the operations that make them.
use iexapitest.Base.{
  List, Option, Text, ap, false, none, refl, some, text_eq, text_eq_refl, ◌∙◌, ◌≡◌,
}
use iexapitest.Db.Sqlite.Meaning.{
  Column, Table, Tables, empty_table, ensure_table, put_table, unless_there,
}
use iexapitest.Db.Sqlite.Reading.{company_columns, price_columns}
use iexapitest.Db.Companies.{companies_table}
use iexapitest.Db.Prices.{prices_table}
use iexapitest.Db.Version.{version_table}
use iexapitest.Db.Manager.Steps.{created, emptied, first_table, first_version, fresh}

module _ {Real : Type 0} where
  -- Making a table changes no other.
  ensure_table_ne :
      (name other : Text) (columns : List Column) (t : Tables Real)
      → text_eq other name ≡ false
      → ensure_table name columns t other ≡ t other
  ensure_table_ne name other columns t ne = go (t name)
    where
      go :
          (o : Option (Table Real))
          → unless_there o (put_table name (some (empty_table columns)) t) t other ≡ t other
      go none = rw ne refl
      go (some tab) = refl

  -- The versions of tables that are there stay.
  pub version_table-created : (t : Tables Real) → created t version_table ≡ t version_table
  unfolding text_eq
  version_table-created t =
      ensure_table_ne prices_table version_table price_columns
        (ensure_table companies_table company_columns t) refl
      ∙ ensure_table_ne companies_table version_table company_columns t refl

  -- What is in a table, or an empty one where there is none
  abbrev pub or_empty : Option (Table Real) → List Column → Option (Table Real)
  or_empty none columns = some (empty_table columns)
  or_empty (some tab) columns = some tab

  ensure_table_self :
      (name : Text) (columns : List Column) (t : Tables Real)
      → ensure_table name columns t name ≡ or_empty (t name) columns
  ensure_table_self name columns t = go (t name) refl
    where
      go :
          (o : Option (Table Real))
          → t name ≡ o
          → unless_there o (put_table name (some (empty_table columns)) t) t name
            ≡ or_empty o columns
      go none e = rw (text_eq_refl name) refl
      go (some tab) e = e

  pub companies_table-created :
      (t : Tables Real) → created t companies_table ≡ or_empty (t companies_table) company_columns
  unfolding text_eq
  companies_table-created t =
      ensure_table_ne prices_table companies_table price_columns
        (ensure_table companies_table company_columns t) refl
      ∙ ensure_table_self companies_table company_columns t

  pub prices_table-created :
      (t : Tables Real) → created t prices_table ≡ or_empty (t prices_table) price_columns
  unfolding text_eq
  prices_table-created t =
      ensure_table_self prices_table price_columns (ensure_table companies_table company_columns t)
      ∙ ap (λ o. or_empty o price_columns)
          (ensure_table_ne companies_table prices_table company_columns t refl)

  -- What a start makes of the tables: it keeps what the program stored, or empties them.
  abbrev pub Keeps : Tables Real → Tables Real → Type 0
  Keeps t u =
      (u companies_table ≡ or_empty (t companies_table) company_columns)
      × (u prices_table ≡ or_empty (t prices_table) price_columns)

  abbrev pub Empties : Tables Real → Type 0
  Empties u =
      (u version_table ≡ some first_table)
      × (u companies_table ≡ some (empty_table company_columns))
      × (u prices_table ≡ some (empty_table price_columns))

  pub fresh-Empties : (t : Tables Real) → Empties (fresh t)
  unfolding text_eq
  fresh-Empties t = (
    version_table-created (first_version (emptied t)),
    companies_table-created (first_version (emptied t)),
    prices_table-created (first_version (emptied t)),
  )
