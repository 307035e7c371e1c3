-- ===== src/Db/Version.antt =====
-- db/table_db_version.{h,cpp}, class DBVersion.
use iexapitest.Base.{Bool, Exec, Text, codes, if◌then◌else◌, pure, to_decimal, ℕ, ◌++◌, ◌>>=◌, ◌>>◌}
use iexapitest.Db.Sqlite.{Sqlite}
use iexapitest.Db.Statements.{exec_and_get, is_set, run_transaction}
use iexapitest.Db.Companies.{id_field}

abbrev pub version_table : Text
version_table = codes "db_version"

abbrev pub version_field : Text
version_field = codes "version"

abbrev pub create_version_text : Text
create_version_text =
    codes "CREATE TABLE IF NOT EXISTS "
    ++ (version_table
        ++ (codes " ("
            ++ (id_field
                ++ (codes " INTEGER PRIMARY KEY AUTOINCREMENT, "
                    ++ (version_field ++ (codes " INT NOT NULL" ++ codes ")"))))))

module _ (S : Sqlite) where
  open S use {Database}

  -- `Create()`
  unfoldable pub create_version : Exec Database (Unit {0})
  create_version = run_transaction S create_version_text

  unfoldable pub is_version_present : Exec Database Bool
  is_version_present =
      exec_and_get S (codes "SELECT EXISTS(SELECT 1 FROM " ++ (version_table ++ codes " LIMIT 1)"))
      >>= λ v. pure (is_set S v)

  unfoldable pub insert_version : ℕ → Exec Database (Unit {0})
  insert_version version = run_transaction S (
      codes "INSERT INTO "
      ++ (version_table
          ++ (codes " ("
              ++ (version_field
                  ++ (codes ")" ++ (codes "VALUES (" ++ (to_decimal version ++ codes ")")))))))

  -- `Create(version)`
  unfoldable pub create_with_version : ℕ → Exec Database (Unit {0})
  unfolding insert_version
  create_with_version version = create_version >> is_version_present >>= λ present.
      if present then pure tt else insert_version version

  unfoldable pub get_db_version : Exec Database ℕ
  get_db_version =
      exec_and_get S (codes "SELECT " ++ (version_field ++ (codes " FROM " ++ version_table)))
      >>= λ v. pure (S.get_uint v)

  -- There is no space in front of SET, as in the source.
  unfoldable pub update_db_version : ℕ → Exec Database (Unit {0})
  update_db_version new_version = run_transaction S (
      codes "UPDATE "
      ++ (version_table
          ++ (codes "SET " ++ (version_field ++ (codes " = " ++ to_decimal new_version)))))
