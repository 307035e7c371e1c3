-- ===== src/Db/Manager/Startup.antt =====
-- What a start leaves of the tables, by the version that is stored.
use iexapitest.Base.{
  ==_iff, Bool, Bool-cases, Exec, List, [], arith, codes, false, if◌then◌else◌, inl, inr, lookup,
  ltb, none, ok, pure, refl, some, subst, suc, text_eq, true, try_catch, zero, ℕ, ◌<◌, ◌==◌, ◌>>◌,
  ◌^◌, ◌∙◌, ◌∷◌, ◌≡◌, ◌≢◌, ◌⊎◌,
}
use iexapitest.Db.Sqlite.{Sqlite}
use iexapitest.Db.Sqlite.Meaning.{
  Row, Table, Tables, drop_table, empty_table, ensure_table, put_table, syntax_error, unless_there,
}
use iexapitest.Db.Sqlite.Reading.{company_columns, reads_fixed, version_columns}
use iexapitest.Db.Sqlite.Engine.{IsDocumented, is_some}
use iexapitest.Db.Sqlite.Runs.{
  Ends, IsAt, Runs, Runs-caught, Runs-pure, Runs-then, Runs-uncaught, is_exist-Runs,
}
use iexapitest.Db.Companies.{companies_table, create_companies, init_companies}
use iexapitest.Db.Prices.{create_prices, init_prices, prices_table}
use iexapitest.Db.Version.{
  create_version, create_with_version, get_db_version, insert_version, is_version_present,
  update_db_version, version_table,
}
use iexapitest.Db.Manager.{
  compare_version, construct_manager, create_and_init_all_tables, db_version, drop_all_tables,
  drop_and_create_all_tables, upgrade, upgrade_version,
}
use iexapitest.Db.Manager.Created.{
  Empties, Keeps, companies_table-created, fresh-Empties, prices_table-created,
  version_table-created,
}
use iexapitest.Db.Manager.Steps.{
  create_companies-Runs, create_prices-Runs, create_version-Runs, created, drop-Runs, emptied,
  first_table, first_version, fresh, get_db_version-Runs, insert_version-Runs,
  update_db_version_fails, version_present-Runs, version_row,
}
use iexapitest.Db.Statements.{drop_existing, is_exist}

module _ (S : Sqlite) (law : IsDocumented S) where
  open S use {Real, Database}

  -- One statement after another
  then-Runs :
      (m n : Exec Database (Unit {0})) (t u v : Tables Real)
      → Runs S law t m (ok tt) u
      → Runs S law u n (ok tt) v
      → Runs S law t (m >> n) (ok tt) v
  then-Runs m n t u v first next = Runs-then S law m (λ x. n) tt (ok tt) t u v first next

  create_all-Runs :
      (t u : Tables Real)
      → Runs S law t (create_with_version S db_version) (ok tt) u
      → Runs S law t (create_and_init_all_tables S) (ok tt) (created u)
  unfolding create_and_init_all_tables init_companies init_prices
  create_all-Runs t u first = then-Runs (create_with_version S db_version) _ t u (created u) first (
      then-Runs (create_companies S) _ u (ensure_table companies_table company_columns u)
        (created u) (create_companies-Runs S law u)
        (then-Runs (pure tt) _ (ensure_table companies_table company_columns u)
          (ensure_table companies_table company_columns u) (created u)
          (Runs-pure S law (ensure_table companies_table company_columns u) tt)
          (then-Runs (create_prices S) (pure tt) (ensure_table companies_table company_columns u)
            (created u) (created u)
            (create_prices-Runs S law (ensure_table companies_table company_columns u))
            (Runs-pure S law (created u) tt))))

  -- The second half of `Create(version)`
  choose : Bool → Exec Database (Unit {0})
  choose present = if present then pure tt else insert_version S db_version

  -- Making the table of versions where there is none
  first_version-Runs :
      (t : Tables Real)
      → t version_table ≡ none
      → Runs S law t (create_with_version S db_version) (ok tt) (first_version t)
  unfolding create_with_version text_eq choose
  first_version-Runs t missing =
      let u : Tables Real = put_table version_table (some (empty_table version_columns)) t in
      Runs-then S law (create_version S >> is_version_present S) choose false (ok tt) t u
        (first_version t)
        (Runs-then S law (create_version S) (λ x. is_version_present S) tt (ok false) t u u
          (subst (λ o. Runs S law t (create_version S) (ok tt) (unless_there o u t)) missing
            (create_version-Runs S law t))
          (version_present-Runs S law u (empty_table version_columns) refl))
        (insert_version-Runs S law u refl)

  -- Where there is one with an entry
  old_version-Runs :
      (t : Tables Real) (tab : Table Real) (row : Row Real) (rows : List (Row Real))
      → t version_table ≡ some tab
      → tab.rows ≡ row ∷ rows
      → Runs S law t (create_with_version S db_version) (ok tt) t
  unfolding create_with_version text_eq choose
  old_version-Runs t tab row rows there some_row =
      Runs-then S law (create_version S >> is_version_present S) choose true (ok tt) t t t
        (Runs-then S law (create_version S) (λ x. is_version_present S) tt (ok true) t t t
          (subst
            (λ o.
              Runs S law t (create_version S) (ok tt)
                (unless_there o (put_table version_table (some (empty_table version_columns)) t) t))
            there (create_version-Runs S law t))
          (rw some_row at (version_present-Runs S law t tab there)))
        (Runs-pure S law t tt)

  drop_and_create-Runs :
      (t : Tables Real) → Runs S law t (drop_and_create_all_tables S) (ok tt) (fresh t)
  unfolding drop_and_create_all_tables text_eq lookup
  drop_and_create-Runs t =
      let t1 : Tables Real = put_table version_table none t in
      let t2 : Tables Real = put_table companies_table none t1 in
      then-Runs (drop_all_tables S) (create_and_init_all_tables S) t (emptied t) (fresh t)
        (then-Runs (drop_existing S version_table) _ t t1 (emptied t)
          (drop-Runs S law version_table t
            (reads_fixed (codes "DROP TABLE IF EXISTS db_version") (drop_table version_table) refl))
          (then-Runs (drop_existing S companies_table) (drop_existing S prices_table) t1 t2
            (emptied t)
            (drop-Runs S law companies_table t1 (
              reads_fixed (codes "DROP TABLE IF EXISTS companies") (drop_table companies_table)
                refl))
            (drop-Runs S law prices_table t2
              (reads_fixed (codes "DROP TABLE IF EXISTS prices") (drop_table prices_table) refl))))
        (create_all-Runs (emptied t) (first_version (emptied t))
          (first_version-Runs (emptied t) refl))

  -- What is done about a version that is read.
  compare_version-Runs :
      (version : ℕ) (t : Tables Real)
      → Runs S law t
          (try_catch (compare_version S version) (λ e. true) (λ e. drop_and_create_all_tables S))
          (ok tt)
          (if version == db_version then t else fresh t)
  unfolding compare_version upgrade
  compare_version-Runs zero t =
      Runs-caught S law (update_db_version S db_version) (λ e. drop_and_create_all_tables S)
        syntax_error (ok tt) t t (fresh t) (update_db_version_fails S law t)
        (drop_and_create-Runs t)
  compare_version-Runs (suc zero) t =
      Runs-uncaught S law (pure tt) (λ e. drop_and_create_all_tables S) tt t t
        (Runs-pure S law t tt)
  compare_version-Runs (suc (suc n)) t =
      let above : ltb db_version (suc (suc n)) ≡ true = ground arith in
      let other : (suc (suc n) == db_version) ≡ false = ground arith in
      rw (compare_version, above, other)
        (Runs-uncaught S law (drop_and_create_all_tables S) (λ e. drop_and_create_all_tables S) tt t
          (fresh t) (drop_and_create-Runs t))

  upgrade_version-Runs :
      (t : Tables Real) (tab : Table Real) (id version : ℕ) (rows : List (Row Real))
      → t version_table ≡ some tab
      → tab.rows ≡ version_row id version ∷ rows
      → version < 2 ^ 32
      → Runs S law t (upgrade_version S) (ok tt) (if version == db_version then t else fresh t)
  unfolding upgrade_version
  upgrade_version-Runs t tab id version rows there first small =
      Runs-then S law (is_exist S version_table) _ true (ok tt) t t _
        (subst (λ o. Runs S law t (is_exist S version_table) (ok (is_some o)) t) there
          (is_exist-Runs S law version_table t))
        (λ d at.
          let (read, at') =
            get_db_version-Runs S law t tab id version rows there first small d at in
          rw read (compare_version-Runs version t (get_db_version S d).1 at'))

  -- A start on a documented SQLite with no transaction open, where the first version that is stored
  -- is below 2 ^ 32: the constructor returns, with no transaction open. With the version of the
  -- program the companies and prices are kept, and a table that is missing is made. With any other
  -- version, also an older one, for which an upgrade is meant, all three tables are emptied, since
  -- the text of the upgrade is no SQL.
  pub construct_manager-Ends :
      (t : Tables Real) (tab : Table Real) (id version : ℕ) (rows : List (Row Real))
      → t version_table ≡ some tab
      → tab.rows ≡ version_row id version ∷ rows
      → version < 2 ^ 32
      → (d : Database) → IsAt S law d t
      → (u : Tables Real) × Ends S law (construct_manager S) d (ok tt) u
        × (((version ≡ db_version) × Keeps t u) ⊎ ((version ≢ db_version) × Empties u))
  unfolding construct_manager
  construct_manager-Ends t tab id version rows there first small d at = (
    if version == db_version then created t else fresh (created t),
    then-Runs (create_and_init_all_tables S) (upgrade_version S) t (created t) _
        (create_all-Runs t t (old_version-Runs t tab (version_row id version) rows there first))
        (upgrade_version-Runs (created t) tab id version rows (version_table-created t ∙ there)
          first small)
        d at,
    elim (Bool-cases (version == db_version)) [
      | inl same ↦ inl (
        (==_iff version db_version).0 same,
        rw same (companies_table-created t, prices_table-created t),
      )
      | inr other ↦ inr (ground arith, rw other (fresh-Empties (created t)))
    ],
  )

  -- The first start on a documented SQLite, where no transaction is open and there is no table of
  -- versions, makes the tables, with the version of the program, and keeps any other.
  pub construct_manager_first :
      (t : Tables Real)
      → t version_table ≡ none
      → (d : Database) → IsAt S law d t
      → (u : Tables Real) × Ends S law (construct_manager S) d (ok tt) u
        × (u version_table ≡ some first_table)
        × Keeps t u
  unfolding construct_manager text_eq
  construct_manager_first t missing d at =
      let u : Tables Real = created (first_version t) in
      let kept = version_table-created (first_version t) in
      (
        u,
        then-Runs (create_and_init_all_tables S) (upgrade_version S) t u u
            (create_all-Runs t (first_version t) (first_version-Runs t missing))
            (upgrade_version-Runs u first_table 1 1 [] kept refl (omega arith)) d at,
        kept,
        (companies_table-created (first_version t), prices_table-created (first_version t)),
      )
