-- ===== src/Db/Manager.antt =====
-- db/db_manager.{h,cpp}, class DBManager, on an open connection.
pub mod Steps
pub mod Created
pub mod Startup
use iexapitest.Base.{
  Exec, Option, if◌then◌else◌, ltb, none, pure, some, true, try_catch, ℕ, ◌>>=◌, ◌>>◌,
}
use iexapitest.Db.Sqlite.{Sqlite}
use iexapitest.Db.Statements.{drop_existing, is_exist}
use iexapitest.Db.Companies.{companies_table, create_companies, init_companies}
use iexapitest.Db.Prices.{create_prices, init_prices, prices_table}
use iexapitest.Db.Version.{create_with_version, get_db_version, update_db_version, version_table}

-- `dbVersion`
abbrev pub db_version : ℕ
db_version = 1

-- `CloseDB`, on the pointer to the connection. The tables hold pointers of their own.
unfoldable pub close_db {ℓ} : {A : Type ℓ} → Option A → Option A
close_db none = none
close_db (some connection) = none

module _ (S : Sqlite) where
  open S use {Database}

  unfoldable pub create_and_init_all_tables : Exec Database (Unit {0})
  create_and_init_all_tables = do
    create_with_version S db_version
    create_companies S
    init_companies S
    create_prices S
    init_prices S

  unfoldable pub drop_all_tables : Exec Database (Unit {0})
  drop_all_tables = do
    drop_existing S version_table
    drop_existing S companies_table
    drop_existing S prices_table

  unfoldable pub drop_and_create_all_tables : Exec Database (Unit {0})
  unfolding drop_all_tables create_and_init_all_tables
  drop_and_create_all_tables = drop_all_tables >> create_and_init_all_tables

  -- `Upgrade(prevVersion)`
  upgrade : ℕ → Exec Database (Unit {0})
  upgrade prev_version = update_db_version S db_version

  compare_version : ℕ → Exec Database (Unit {0})
  unfolding upgrade drop_and_create_all_tables
  compare_version value =
      if ltb db_version value
      then drop_and_create_all_tables
      else if ltb value db_version
      then upgrade value
      else pure tt

  -- `UpgradeVersion`. The handler is for every std::exception.
  unfoldable pub upgrade_version : Exec Database (Unit {0})
  unfolding compare_version drop_and_create_all_tables
  upgrade_version = is_exist S version_table >>= λ exists.
      if exists
      then try_catch (get_db_version S >>= compare_version) (λ e. true)
          (λ e. drop_and_create_all_tables)
      else drop_and_create_all_tables

  -- The constructor
  unfoldable pub construct_manager : Exec Database (Unit {0})
  unfolding create_and_init_all_tables upgrade_version
  construct_manager = create_and_init_all_tables >> upgrade_version
