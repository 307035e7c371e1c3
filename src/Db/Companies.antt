-- ===== src/Db/Companies.antt =====
-- db/table_companies.{h,cpp}, class Companies.
pub mod Records
pub mod Storing
pub mod Finding
pub mod Ids
pub mod RoundTrip
pub mod Changes
use iexapitest.Base.{Bool, Exec, Text, [], codes, pure, ℤ, ◌++◌, ◌>>=◌, ◌∷◌}
use iexapitest.Db.Sqlite.{Sqlite, text}
use iexapitest.Db.Statements.{
  exec_and_get, get_text_field, is_cell_present, is_set, make_statement, remove_rows, run_statement,
  run_transaction, show_int, update_field,
}

abbrev pub companies_table : Text
companies_table = codes "companies"

-- `fields.at(…)` of each eFields
abbrev pub id_field : Text
id_field = codes "id"

abbrev pub uuid_field : Text
uuid_field = codes "uuid"

abbrev pub name_field : Text
name_field = codes "full_name"

abbrev pub logo_field : Text
logo_field = codes "logo"

abbrev pub create_companies_text : Text
create_companies_text =
    codes "CREATE TABLE IF NOT EXISTS "
    ++ (companies_table
        ++ (codes "("
            ++ (id_field
                ++ (codes " INTEGER PRIMARY KEY AUTOINCREMENT,"
                    ++ (uuid_field
                        ++ (codes " TEXT NOT NULL UNIQUE, "
                            ++ (name_field
                                ++ (codes " TEXT NOT NULL, "
                                    ++ (logo_field ++ (codes " TEXT " ++ codes ")"))))))))))

abbrev pub add_company_text : Text
add_company_text =
    codes "INSERT OR IGNORE INTO "
    ++ (companies_table
        ++ (codes " "
            ++ (codes "("
                ++ (uuid_field
                    ++ (codes ", "
                        ++ (name_field
                            ++ (codes ", "
                                ++ (logo_field
                                    ++ (codes ") " ++ codes " VALUES (:uuid, :name, :logo)")))))))))

module _ (S : Sqlite) where
  open S use {Database}

  unfoldable pub create_companies : Exec Database (Unit {0})
  create_companies = run_transaction S create_companies_text

  -- `Init`
  unfoldable pub init_companies : Exec Database (Unit {0})
  init_companies = pure tt

  unfoldable pub add_company : Text → Text → Text → Exec Database (Unit {0})
  add_company uuid name logo =
      make_statement S add_company_text
        ((codes ":uuid", text uuid) ∷ (codes ":name", text name) ∷ (codes ":logo", text logo) ∷ [])
      >>= run_statement S

  unfoldable pub get_row_id : Text → Exec Database ℤ
  get_row_id uuid =
      exec_and_get S (
        codes "SELECT "
        ++ (id_field
            ++ (codes " "
                ++ (codes "FROM "
                    ++ (companies_table
                        ++ (codes " "
                            ++ (codes "WHERE "
                                ++ (uuid_field ++ (codes " = \"" ++ (uuid ++ codes "\" "))))))))))
      >>= λ v. pure (S.get_int64 v)

  unfoldable pub get_uuid_by_row_id : ℤ → Exec Database Text
  get_uuid_by_row_id row_id = get_text_field S companies_table uuid_field id_field row_id

  unfoldable pub get_name_by_row_id : ℤ → Exec Database Text
  get_name_by_row_id row_id = get_text_field S companies_table name_field id_field row_id

  unfoldable pub get_logo_by_row_id : ℤ → Exec Database Text
  get_logo_by_row_id row_id = get_text_field S companies_table logo_field id_field row_id

  unfoldable pub set_logo_by_id : ℤ → Text → Exec Database (Unit {0})
  set_logo_by_id row_id link = update_field S companies_table logo_field link id_field row_id

  unfoldable pub is_uuid_present : Text → Exec Database Bool
  is_uuid_present uuid = is_cell_present S companies_table uuid_field uuid

  unfoldable pub is_id_present : ℤ → Exec Database Bool
  is_id_present row_id =
      exec_and_get S (
        codes "SELECT EXISTS(SELECT 1 FROM "
        ++ (companies_table
            ++ (codes " "
                ++ (codes "WHERE "
                    ++ (id_field
                        ++ (codes " = "
                            ++ (show_int row_id ++ (codes " " ++ codes "LIMIT 1)"))))))))
      >>= λ v. pure (is_set S v)

  unfoldable pub remove_by_row_id : ℤ → Exec Database (Unit {0})
  remove_by_row_id row_id = remove_rows S companies_table id_field row_id
