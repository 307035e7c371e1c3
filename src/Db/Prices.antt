-- ===== src/Db/Prices.antt =====
-- db/table_prices.{h,cpp}, class Prices.
pub mod Ledgers
use iexapitest.Base.{Exec, Text, [], codes, pure, ℤ, ◌++◌, ◌>>=◌, ◌∷◌}
use iexapitest.Db.Sqlite.{Sqlite, integer, real}
use iexapitest.Db.Statements.{make_statement, remove_rows, run_statement, run_transaction}
use iexapitest.Db.Companies.{companies_table, id_field}

abbrev pub prices_table : Text
prices_table = codes "prices"

abbrev pub company_rowid_field : Text
company_rowid_field = codes "company_rowid"

abbrev pub price_field : Text
price_field = codes "price"

abbrev pub timestamp_field : Text
timestamp_field = codes "timestamp"

abbrev pub create_prices_text : Text
create_prices_text =
    codes "PRAGMA foreign_keys=on; CREATE TABLE IF NOT EXISTS "
    ++ (prices_table
        ++ (codes "("
            ++ (id_field
                ++ (codes " INTEGER PRIMARY KEY AUTOINCREMENT, "
                    ++ (price_field
                        ++ (codes " REAL NOT NULL, "
                            ++ (timestamp_field
                                ++ (codes " INT NOT NULL, "
                                    ++ (company_rowid_field
                                        ++ (codes " INTEGER NOT NULL, "
                                            ++ (codes "FOREIGN KEY("
                                                ++ (company_rowid_field
                                                    ++ (codes ") REFERENCES "
                                                        ++ (companies_table
                                                            ++ (codes "("
                                                            ++ (id_field
                                                            ++ (codes ")"
                                                            ++ codes ")")))))))))))))))))

abbrev pub add_price_text : Text
add_price_text =
    codes "INSERT INTO "
    ++ (prices_table
        ++ (codes " ("
            ++ (company_rowid_field
                ++ (codes ", "
                    ++ (price_field
                        ++ (codes ", "
                            ++ (timestamp_field ++ codes ") VALUES (:rowid, :price, :time)")))))))

module _ (S : Sqlite) where
  open S use {Database, Real}

  unfoldable pub create_prices : Exec Database (Unit {0})
  create_prices = run_transaction S create_prices_text

  -- `Init`
  unfoldable pub init_prices : Exec Database (Unit {0})
  init_prices = pure tt

  unfoldable pub add_price : ℤ → Real → ℤ → Exec Database (Unit {0})
  add_price company_row_id price timestamp =
      make_statement S add_price_text (
        (codes ":rowid", integer company_row_id)
        ∷ (codes ":price", real price)
        ∷ (codes ":time", integer timestamp)
        ∷ [])
      >>= run_statement S

  unfoldable pub remove_all_by_company_row_id : ℤ → Exec Database (Unit {0})
  remove_all_by_company_row_id company_row_id =
      remove_rows S prices_table company_rowid_field company_row_id
