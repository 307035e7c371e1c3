-- ===== src/Db/Sqlite/Reading.antt =====
-- The statements that the program sends, as SQLite reads them.
use iexapitest.Base.{
  Bool, List, Option, Text, [], codes, false, if◌then◌else◌, leb, lookup, none, not, pos, some,
  text_eq, true, ◌&&◌, ◌++◌, ◌+◌, ◌==◌, ◌||◌, ◌∷◌, ◌≡◌,
}
use iexapitest.Db.Sqlite.{integer, text}
use iexapitest.Db.Sqlite.Meaning.{
  Column, Operand, Query, bound, create_table, delete, drop_table, insert, literal, malformed,
  select, select_exists, update,
}

abbrev column_of : Text → Column
column_of name = record { name = name; is_id = false; not_null = false; unique = false }

abbrev id_column : Column
id_column = record (column_of (codes "id")) { is_id = true }

abbrev required : Text → Column
required name = record (column_of name) { not_null = true }

abbrev pub version_columns : List Column
version_columns = id_column ∷ required (codes "version") ∷ []

abbrev pub company_columns : List Column
company_columns =
    id_column
    ∷ record (required (codes "uuid")) { unique = true }
    ∷ required (codes "full_name")
    ∷ column_of (codes "logo")
    ∷ []

abbrev pub price_columns : List Column
price_columns =
    id_column
    ∷ required (codes "price")
    ∷ required (codes "timestamp")
    ∷ required (codes "company_rowid")
    ∷ []

-- A double-quoted word is a text unless it names a column of the table, in any case of letters.
lower : Text → Text
lower [] = []
lower (c ∷ s) = (if leb b'A' c && leb c b'Z' then c + 32 else c) ∷ lower s

names_company_column : Text → Bool
unfolding text_eq
names_company_column name =
    text_eq name (codes "id")
    || text_eq name (codes "uuid")
    || text_eq name (codes "full_name")
    || text_eq name (codes "logo")
    || text_eq name (codes "rowid")
    || text_eq name (codes "oid")
    || text_eq name (codes "_rowid_")

-- Neither a double quote, nor a NUL, at which SQLite stops reading the text
unfoldable pub lacks_quote : Text → Bool
lacks_quote [] = true
lacks_quote (c ∷ s) = not (c == b'"') && not (c == 0) && lacks_quote s

-- The word between double quotes is read as a text.
unfoldable pub is_literal : Text → Bool
unfolding lower names_company_column lacks_quote
is_literal s = lacks_quote s && not (names_company_column (lower s))

module _ (Real : Type 0) where
  abbrev at_id : Text → Text × Operand Real
  at_id parameter = (codes "id", bound parameter)

  abbrev drops : List (Text × Query Real)
  drops =
      (codes "DROP TABLE IF EXISTS db_version", drop_table (codes "db_version"))
      ∷ (codes "DROP TABLE IF EXISTS companies", drop_table (codes "companies"))
      ∷ (codes "DROP TABLE IF EXISTS prices", drop_table (codes "prices"))
      ∷ []

  abbrev creations : List (Text × Query Real)
  creations =
      (
        codes
            "CREATE TABLE IF NOT EXISTS db_version (id INTEGER PRIMARY KEY AUTOINCREMENT, version INT NOT NULL)",
        create_table (codes "db_version") version_columns,
      )
      ∷ (
        codes
            "CREATE TABLE IF NOT EXISTS companies(id INTEGER PRIMARY KEY AUTOINCREMENT,uuid TEXT NOT NULL UNIQUE, full_name TEXT NOT NULL, logo TEXT )",
        create_table (codes "companies") company_columns,
      )
      ∷ (
        codes
            "PRAGMA foreign_keys=on; CREATE TABLE IF NOT EXISTS prices(id INTEGER PRIMARY KEY AUTOINCREMENT, price REAL NOT NULL, timestamp INT NOT NULL, company_rowid INTEGER NOT NULL, FOREIGN KEY(company_rowid) REFERENCES companies(id))",
        create_table (codes "prices") price_columns,
      )
      ∷ []

  abbrev version_queries : List (Text × Query Real)
  version_queries =
      (
        codes "SELECT EXISTS(SELECT 1 FROM db_version LIMIT 1)",
        select_exists (codes "db_version") none,
      )
      ∷ (
        codes "INSERT INTO db_version (version)VALUES (1)",
        insert false (codes "db_version") ((codes "version", literal (integer (pos 1))) ∷ []),
      )
      ∷ (codes "SELECT version FROM db_version", select (codes "version") (codes "db_version") none)
      ∷ (codes "UPDATE db_versionSET version = 1", malformed)
      ∷ []

  abbrev company_queries : List (Text × Query Real)
  company_queries =
      (
        codes
            "INSERT OR IGNORE INTO companies (uuid, full_name, logo)  VALUES (:uuid, :name, :logo)",
        insert true (codes "companies") (
            (codes "uuid", bound (codes ":uuid"))
            ∷ (codes "full_name", bound (codes ":name"))
            ∷ (codes "logo", bound (codes ":logo"))
            ∷ []),
      )
      ∷ (
        codes "SELECT uuid FROM companies WHERE id = :compareValue",
        select (codes "uuid") (codes "companies") (some (at_id (codes ":compareValue"))),
      )
      ∷ (
        codes "SELECT full_name FROM companies WHERE id = :compareValue",
        select (codes "full_name") (codes "companies") (some (at_id (codes ":compareValue"))),
      )
      ∷ (
        codes "SELECT logo FROM companies WHERE id = :compareValue",
        select (codes "logo") (codes "companies") (some (at_id (codes ":compareValue"))),
      )
      ∷ (
        codes "UPDATE companies SET logo = :newValue WHERE id = :searchValue",
        update (codes "companies") (codes "logo") (bound (codes ":newValue"))
            (at_id (codes ":searchValue")),
      )
      ∷ (
        codes "DELETE FROM companies WHERE id = :searchValue",
        delete (codes "companies") (at_id (codes ":searchValue")),
      )
      ∷ []

  abbrev price_queries : List (Text × Query Real)
  price_queries =
      (
        codes "INSERT INTO prices (company_rowid, price, timestamp) VALUES (:rowid, :price, :time)",
        insert false (codes "prices") (
            (codes "company_rowid", bound (codes ":rowid"))
            ∷ (codes "price", bound (codes ":price"))
            ∷ (codes "timestamp", bound (codes ":time"))
            ∷ []),
      )
      ∷ (
        codes "DELETE FROM prices WHERE company_rowid = :searchValue",
        delete (codes "prices") (codes "company_rowid", bound (codes ":searchValue")),
      )
      ∷ []

  abbrev pub fixed_queries : List (Text × Query Real)
  fixed_queries = drops ++ (creations ++ (version_queries ++ (company_queries ++ price_queries)))

  -- A condition on a quoted word
  abbrev pub at_uuid : Text → Option (Text × Operand Real)
  at_uuid uuid = some (codes "uuid", literal (text uuid))

  -- The text is read as the query.
  pub data Reads : Text → Query Real → Type 0 where
    reads_fixed : (cmd : Text) (q : Query Real) → lookup cmd fixed_queries ≡ some q → Reads cmd q
    reads_id :
        (uuid cmd : Text)
        → is_literal uuid ≡ true
        → cmd ≡ codes "SELECT id FROM companies WHERE uuid = \"" ++ (uuid ++ codes "\" ")
        → Reads cmd (select (codes "id") (codes "companies") (at_uuid uuid))
    reads_present :
        (uuid cmd : Text)
        → is_literal uuid ≡ true
        → cmd
          ≡ codes "SELECT EXISTS(SELECT 1 FROM companies WHERE uuid = \""
            ++ (uuid ++ codes "\" LIMIT 1)")
        → Reads cmd (select_exists (codes "companies") (at_uuid uuid))
