-- ===== src/Db/Companies/Finding.antt =====
-- Finding the row of a uuid, and whether there is one.
use iexapitest.Base.{
  Bool, Bool-cases, List, Option, Result, Text, [], ap, arith, codes, err, false, inl, inr, lookup,
  map, none, ok, pos, pure, refl, some, text_eq, true, ℤ, ◌++◌, ◌>>=◌, ◌∷◌, ◌≡◌,
}
use iexapitest.Db.Sqlite.{Sqlite, Value, integer}
use iexapitest.Db.Sqlite.Meaning.{
  Query, Tables, any_row, exists_value, field_of, fits, is_typed, keep_rows, meaning, on_table-some,
  preparing, select, select_exists, value_eq,
}
use iexapitest.Db.Sqlite.Reading.{at_uuid, is_literal, reads_id, reads_present}
use iexapitest.Db.Companies.{companies_table, get_row_id, id_field, is_uuid_present}
use iexapitest.Db.Companies.Records.{
  Company, Registry, any_row-uuid, find_company, found, row_of, table_of,
}
use iexapitest.Db.Sqlite.Engine.{IsDocumented}
use iexapitest.Db.Sqlite.Runs.{
  Ends, IsAt, Runs, Runs-pure, Runs-then, Runs-throws, exec_and_get-Runs, first_of,
}
use iexapitest.Db.Statements.{exec_and_get, is_cell_present, is_set, no_row}

module _ (Real : Type 0) where
  -- Looking for the id of a uuid
  abbrev stored_id : Option Company → Result (Value Real)
  stored_id none = err no_row
  stored_id (some c) = ok (integer (pos c.id))

  id_query : Text → Query Real
  id_query uuid = select id_field companies_table (at_uuid Real uuid)

  first_id :
      (uuid : Text) (cs : List Company)
      → first_of
          (map (field_of id_field) (keep_rows (fits [] (at_uuid Real uuid)) (map (row_of Real) cs)))
        ≡ stored_id (find_company uuid cs)
  unfolding keep_rows find_company value_eq lookup text_eq
  first_id uuid [] = refl
  first_id uuid (c ∷ cs) = elim (Bool-cases (text_eq c.uuid uuid)) [
    | inl e ↦ rw e refl
    | inr e ↦ rw e (first_id uuid cs)
  ]

module _ (S : Sqlite) (law : IsDocumented S) where
  open S use {Real}

  abbrev pub id_of : Option Company → Result ℤ
  id_of none = err no_row
  id_of (some c) = ok (pos c.id)

  -- Over a documented SQLite with no transaction open, `GetRowID` on a uuid that SQLite reads as a
  -- text, and a table that stands for a registry: nothing is changed, and the result is the id of
  -- the company of that uuid, or an exception where there is none.
  pub get_row_id-Ends :
      (uuid : Text) (r : Registry) (t : Tables Real)
      → is_literal uuid ≡ true
      → t companies_table ≡ some (table_of Real r)
      → (d : S.Database) → IsAt S law d t
      → Ends S law (get_row_id S uuid) d (id_of (find_company uuid r.companies)) t
  unfolding get_row_id meaning preparing id_query is_typed text_eq
  get_row_id-Ends uuid r t plain there =
      go (find_company uuid r.companies) (rw (← first_id Real uuid r.companies) read_id)
    where
      cmd : Text
      cmd = codes "SELECT id FROM companies WHERE uuid = \"" ++ (uuid ++ codes "\" ")

      read_id :
          Runs S law t
            (exec_and_get S cmd)
            (first_of (
              map
                (field_of id_field)
                (keep_rows (fits [] (at_uuid Real uuid)) (map (row_of Real) r.companies))))
            t
      read_id =
          exec_and_get-Runs S law cmd (id_query Real uuid) t
            (map (field_of id_field)
              (keep_rows (fits [] (at_uuid Real uuid)) (map (row_of Real) r.companies)))
            (reads_id uuid cmd plain refl) refl
            (on_table-some companies_table t (λ x. (ok tt, t)) (table_of Real r) there)
            (on_table-some companies_table t
              (λ x.
                (ok (map (field_of id_field) (keep_rows (fits [] (at_uuid Real uuid)) x.rows)), t))
              (table_of Real r) there)

      go :
          (o : Option Company)
          → Runs S law t (exec_and_get S cmd) (stored_id Real o) t
          → Runs S law t (exec_and_get S cmd >>= λ v. pure (S.get_int64 v)) (id_of o) t
      go none ran =
          Runs-throws S law (exec_and_get S cmd) (λ v. pure (S.get_int64 v)) no_row t t ran
      go (some c) ran =
          Runs-then S law (exec_and_get S cmd) (λ v. pure (S.get_int64 v)) (integer (pos c.id))
            (ok (pos c.id)) t t t ran
            (rw (law.get_int64_lem (pos c.id)) (Runs-pure S law t (pos c.id)))

  -- Over a documented SQLite with no transaction open, a table that stands for a registry, and a
  -- uuid that SQLite reads as a text: `IsUUIDPresent` says whether `GetRowID` returns. They answer
  -- by the same look-up in the registry, and change nothing.
  pub is_uuid_present-get_row_id :
      (uuid : Text) (r : Registry) (t : Tables Real)
      → is_literal uuid ≡ true
      → t companies_table ≡ some (table_of Real r)
      → (d : S.Database) → IsAt S law d t
      → Ends S law (is_uuid_present S uuid) d (ok (found Real (find_company uuid r.companies))) t
        × Ends S law (get_row_id S uuid) d (id_of (find_company uuid r.companies)) t
  unfolding is_uuid_present is_cell_present is_set meaning preparing is_typed text_eq
  is_uuid_present-get_row_id uuid r t plain there d at = (
    go (any_row (fits [] (at_uuid Real uuid)) (map (row_of Real) r.companies))
        (any_row-uuid Real uuid r.companies)
        (exec_and_get-Runs S law cmd q t
          (exists_value (any_row (fits [] (at_uuid Real uuid)) (map (row_of Real) r.companies))
            ∷ [])
          (reads_present uuid cmd plain refl) refl
          (on_table-some companies_table t (λ x. (ok tt, t)) (table_of Real r) there)
          (on_table-some companies_table t
            (λ x. (ok (exists_value (any_row (fits [] (at_uuid Real uuid)) x.rows) ∷ []), t))
            (table_of Real r) there))
        d at,
    get_row_id-Ends uuid r t plain there d at,
  )
    where
      cmd : Text
      cmd =
          codes "SELECT EXISTS(SELECT 1 FROM companies WHERE uuid = \""
          ++ (uuid ++ codes "\" LIMIT 1)")

      q : Query Real
      q = select_exists companies_table (at_uuid Real uuid)

      go :
          (b : Bool)
          → b ≡ found Real (find_company uuid r.companies)
          → Runs S law t (exec_and_get S cmd) (ok (exists_value b)) t
          → Runs S law t
              (exec_and_get S cmd >>= λ v. pure (is_set S v))
              (ok (found Real (find_company uuid r.companies)))
              t
      go true e ran =
          Runs-then S law (exec_and_get S cmd) (λ v. pure (is_set S v)) (integer (pos 1)) _ t t t
            ran (λ d at. (rw (law.get_int_lem 1 (omega arith)) (ap (λ x. ok x) e), at))
      go false e ran =
          Runs-then S law (exec_and_get S cmd) (λ v. pure (is_set S v)) (integer (pos 0)) _ t t t
            ran (λ d at. (rw (law.get_int_lem 0 (omega arith)) (ap (λ x. ok x) e), at))
