-- ===== src/Examples/Database.antt =====
-- db/ on the engine in memory.
use iexapitest.Db.Sqlite.Engine.{Snapshot}
use iexapitest.Base.{
  [], arith, codes, err, inl, lookup, none, ok, pos, refl, some, suc, text_eq, true, ℕ, ◌>>=◌, ◌>>◌,
  ◌∷◌, ◌≡◌, ◌≢◌, ◌⊎◌,
}
use iexapitest.Db.Sqlite.Meaning.{
  Table, Tables, is_typed, malformed, meaning, put_table, syntax_error,
}
use iexapitest.Db.Sqlite.Reading.{Reads, is_literal, reads_fixed, version_columns}
use iexapitest.Db.Sqlite.Runs.{Ends, idle, run_statement_atomic}
use iexapitest.Db.Statements.{run_statement}
use iexapitest.Db.Companies.{
  add_company, companies_table, get_logo_by_row_id, get_name_by_row_id, get_row_id,
  get_uuid_by_row_id, is_uuid_present, set_logo_by_id,
}
use iexapitest.Db.Companies.Records.{Company, Registry, find_company, table_of}
use iexapitest.Db.Companies.Storing.{add_company-Ends, added}
use iexapitest.Db.Companies.Finding.{is_uuid_present-get_row_id}
use iexapitest.Db.Companies.RoundTrip.{add_company-get_row_id}
use iexapitest.Db.Version.{version_table}
use iexapitest.Db.Manager.{construct_manager, db_version}
use iexapitest.Db.Manager.Steps.{first_table, version_row}
use iexapitest.Db.Manager.Created.{Empties, Keeps}
use iexapitest.Db.Manager.Startup.{construct_manager-Ends, construct_manager_first}
use iexapitest.Examples.Memory.{memory, memory-IsAt, memory-IsDocumented}
use iexapitest.Db.Companies.Changes.{relabel, set_logo_by_id-get_logo_by_row_id, with_companies}

abbrev facebook : Company
facebook = record {
  id = 1;
  uuid = codes "fb";
  full_name = codes "Facebook";
  logo = codes "https://logo";
}

abbrev one_company : Registry
one_company = record { companies = facebook ∷ []; last_id = 1 }

abbrev no_tables : Tables ℕ
no_tables name = none

abbrev stored : Tables ℕ
stored = put_table companies_table (some (table_of ℕ one_company)) no_tables

abbrev old_version : Table ℕ
old_version = record { columns = version_columns; rows = version_row 1 0 ∷ []; last_id = 1 }

-- The connection before each example
abbrev connection : Snapshot ℕ
connection = idle stored

abbrev old_tables : Tables ℕ
old_tables = put_table version_table (some old_version) stored

add_company-Ends_example :
    Ends memory memory-IsDocumented
      (add_company memory (codes "aapl") (codes "Apple") (codes "https://apple"))
      connection
      (ok tt)
      (added ℕ suc (codes "aapl") (codes "Apple") (codes "https://apple") one_company stored)
unfolding text_eq memory-IsDocumented
add_company-Ends_example =
    add_company-Ends memory memory-IsDocumented (codes "aapl") (codes "Apple")
      (codes "https://apple") one_company stored refl connection (memory-IsAt stored)

add_company-get_row_id_example :
    Ends memory memory-IsDocumented
      (add_company memory (codes "fb") (codes "Meta") (codes "x")
        >> (get_row_id memory (codes "fb") >>= get_uuid_by_row_id memory))
      connection
      (ok (codes "fb"))
      (added ℕ suc (codes "fb") (codes "Meta") (codes "x") one_company stored)
    × Ends memory memory-IsDocumented
        (add_company memory (codes "fb") (codes "Meta") (codes "x")
          >> (get_row_id memory (codes "fb") >>= get_name_by_row_id memory))
        connection
        (ok (codes "Facebook"))
        (added ℕ suc (codes "fb") (codes "Meta") (codes "x") one_company stored)
unfolding text_eq is_literal find_company memory-IsDocumented
add_company-get_row_id_example =
    add_company-get_row_id memory memory-IsDocumented (codes "fb") (codes "Meta") (codes "x")
      one_company stored refl (omega arith) refl connection (memory-IsAt stored)

is_uuid_present-get_row_id_example :
    Ends memory memory-IsDocumented
      (is_uuid_present memory (codes "fb"))
      connection
      (ok true)
      stored
    × Ends memory memory-IsDocumented
        (get_row_id memory (codes "fb"))
        connection
        (ok (pos 1))
        stored
unfolding text_eq is_literal find_company
is_uuid_present-get_row_id_example =
    is_uuid_present-get_row_id memory memory-IsDocumented (codes "fb") one_company stored refl refl
      connection (memory-IsAt stored)

construct_manager-Ends_example :
    (u : Tables ℕ) × Ends memory memory-IsDocumented
      (construct_manager memory)
      (idle old_tables)
      (ok tt)
      u
    × (((0 ≡ db_version) × Keeps old_tables u) ⊎ ((0 ≢ db_version) × Empties u))
unfolding text_eq
construct_manager-Ends_example =
    construct_manager-Ends memory memory-IsDocumented old_tables old_version 1 0 [] refl refl
      (omega arith) (idle old_tables) (memory-IsAt old_tables)

construct_manager_first_example :
    (u : Tables ℕ) × Ends memory memory-IsDocumented (construct_manager memory) connection (ok tt) u
    × (u version_table ≡ some first_table)
    × Keeps stored u
unfolding text_eq
construct_manager_first_example =
    construct_manager_first memory memory-IsDocumented stored refl connection (memory-IsAt stored)

broken-Reads : Reads ℕ (codes "UPDATE db_versionSET version = 1") malformed
unfolding lookup text_eq
broken-Reads = reads_fixed _ _ refl

run_statement_atomic_example :
    Ends memory memory-IsDocumented
      (run_statement memory (record { cmd = codes "UPDATE db_versionSET version = 1"; binds = [] }))
      connection
      (err syntax_error)
      stored
unfolding meaning is_typed
run_statement_atomic_example =
    run_statement_atomic memory memory-IsDocumented (codes "UPDATE db_versionSET version = 1")
      malformed [] stored stored (inl syntax_error) connection broken-Reads refl refl
      (memory-IsAt stored)

set_logo_by_id-get_logo_by_row_id_example :
    Ends memory memory-IsDocumented
      (set_logo_by_id memory (pos 1) (codes "https://new") >> get_logo_by_row_id memory (pos 1))
      connection
      (ok (codes "https://new"))
      (with_companies ℕ
        (relabel (pos 1) (codes "https://new") one_company.companies)
        one_company
        stored)
unfolding text_eq find_company
set_logo_by_id-get_logo_by_row_id_example =
    set_logo_by_id-get_logo_by_row_id memory memory-IsDocumented (codes "fb") (codes "https://new")
      facebook one_company stored (omega arith) refl refl connection (memory-IsAt stored)
