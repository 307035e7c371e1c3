-- ===== src/Db/Companies/RoundTrip.antt =====
-- A company that is added is found by its uuid, and its row by its id.
use iexapitest.Base.{
  Bool-cases, Exec, List, Option, Text, [], ap, codes, gets, inl, inr, lift, lookup, map, none, ok,
  pos, refl, some, subst, suc, text_eq, true, ℕ, ℤ, ◌++◌, ◌==◌, ◌>>=◌, ◌>>◌, ◌∙◌, ◌∷◌, ◌≡◌,
}
use iexapitest.Db.Fields.{get_field_value}
use iexapitest.Db.Sqlite.{Binds, Sqlite, Value, integer, text}
use iexapitest.Db.Sqlite.Meaning.{
  Operand, Query, Tables, bound, field_of, fits, int_eq, is_null_value, is_typed, keep_rows,
  meaning, on_table-some, preparing, select, value_eq,
}
use iexapitest.Db.Sqlite.Reading.{Reads, is_literal, reads_fixed}
use iexapitest.Db.Sqlite.Engine.{IsDocumented}
use iexapitest.Db.Sqlite.Runs.{Ends, IsAt, Runs, Runs-then, make_statement-Runs, run-Runs}
use iexapitest.Db.Statements.{
  Statement, create_get_field_query, get_text_field, make_statement, show_int, text_or_null,
}
use iexapitest.Db.Companies.{
  add_company, companies_table, get_name_by_row_id, get_row_id, get_uuid_by_row_id, id_field,
  name_field, uuid_field,
}
use iexapitest.Db.Companies.Records.{
  Company, Registry, find_company, register, row_of, table_of, unless_found,
}
use iexapitest.Db.Companies.Ids.{
  IsNumbered, find_company-register, find_company-uuid, register-IsNumbered, with_id,
  with_id-find_company,
}
use iexapitest.Db.Companies.Storing.{add_company-Ends, added}
use iexapitest.Db.Companies.Finding.{get_row_id-Ends}

module _ (Real : Type 0) where
  abbrev id_binds : ℕ → Binds Real
  id_binds k = (codes ":compareValue", integer (pos k)) ∷ []

  abbrev pub by_id : Option (Text × Operand Real)
  by_id = some (id_field, bound (codes ":compareValue"))

  -- The rows with an id
  keep_rows-id :
      (k : ℕ) (cs : List Company)
      → keep_rows (fits (id_binds k) by_id) (map (row_of Real) cs)
        ≡ map (row_of Real) (with_id k cs)
  unfolding keep_rows with_id value_eq int_eq lookup text_eq
  keep_rows-id k [] = refl
  keep_rows-id k (c ∷ cs) = elim (Bool-cases (c.id == k)) [
    | inl e ↦ rw e (ap (λ rs. row_of Real c ∷ rs) (keep_rows-id k cs))
    | inr e ↦ rw e (keep_rows-id k cs)
  ]

-- The company that was found, or else a new one
abbrev pub or_new : Option Company → Company → Company
or_new none new = new
or_new (some c) new = c

-- The company that is in the registry under a uuid after an addition
abbrev pub company_after : Text → Text → Text → Registry → Company
company_after uuid name logo r =
    or_new (find_company uuid r.companies)
      (record { id = suc r.last_id; uuid = uuid; full_name = name; logo = logo })

pub find_company-after :
    (gap : ℕ → ℕ) (uuid name logo : Text) (r : Registry)
    → find_company uuid (register gap uuid name logo r).companies
      ≡ some (company_after uuid name logo r)
find_company-after gap uuid name logo r =
    find_company-register gap uuid name logo r ∙ go (find_company uuid r.companies) _
  where
    go : (o : Option Company) (c : Company) → unless_found o (some c) o ≡ some (or_new o c)
    go none c = refl
    go (some c') c = refl

module _ (S : Sqlite) (law : IsDocumented S) where
  open S use {Real}

  -- Reading a text column of the one company that has the id.
  pub get_text_field-Runs :
      (column : Text) (part : Company → Text) (c : Company) (r : Registry) (t : Tables Real)
      → Reads Real
          (codes "SELECT " ++ (column ++ codes " FROM companies WHERE id = :compareValue"))
          (select column companies_table (by_id Real))
      → field_of column (row_of Real c) ≡ text (part c)
      → with_id c.id r.companies ≡ c ∷ []
      → t companies_table ≡ some (table_of Real r)
      → Runs S law t (get_text_field S companies_table column id_field (pos c.id)) (ok (part c)) t
  unfolding get_text_field create_get_field_query text_or_null meaning preparing get_field_value
      is_null_value is_typed lookup
  get_text_field-Runs column part c r t reads is_part one there =
      Runs-then S law (make_statement S cmd (id_binds Real c.id)) next
        (record { cmd = cmd; binds = id_binds Real c.id }) (ok (part c)) t t t
        (make_statement-Runs S law cmd q (id_binds Real c.id) t reads
          (on_table-some companies_table t (λ x. (ok tt, t)) (table_of Real r) there))
        (Runs-then S law (S.run cmd (id_binds Real c.id)) last (text (part c) ∷ []) (ok (part c)) t
          t t
          (run-Runs S law cmd q (id_binds Real c.id) t t (ok (text (part c) ∷ [])) reads refl (
            on_table-some companies_table t
              (λ x. (
                ok (
                    map (field_of column)
                      (keep_rows (fits (id_binds Real c.id) (by_id Real)) x.rows)),
                t,
              ))
              (table_of Real r) there
            ∙ rw (keep_rows-id Real c.id r.companies, one, is_part) refl))
          (λ d e. (rw (law.is_null_lem (text (part c)), law.get_string_lem (part c)) refl, e)))
    where
      cmd : Text
      cmd = codes "SELECT " ++ (column ++ codes " FROM companies WHERE id = :compareValue")

      q : Query Real
      q = select column companies_table (by_id Real)

      last : List (Value Real) → Exec S.Database Text
      last values =
          lift (get_field_value id_field (show_int (pos c.id)) (map (text_or_null S) values))

      next : Statement Real → Exec S.Database Text
      next query = S.run query.cmd query.binds >>= last

  uuid-Reads :
      Reads Real
        (codes "SELECT uuid FROM companies WHERE id = :compareValue")
        (select uuid_field companies_table (by_id Real))
  unfolding lookup text_eq
  uuid-Reads = reads_fixed _ _ refl

  name-Reads :
      Reads Real
        (codes "SELECT full_name FROM companies WHERE id = :compareValue")
        (select name_field companies_table (by_id Real))
  unfolding lookup text_eq
  name-Reads = reads_fixed _ _ refl

  uuid_field-row_of : (c : Company) → field_of uuid_field (row_of Real c) ≡ text c.uuid
  unfolding lookup text_eq
  uuid_field-row_of c = refl

  name_field-row_of : (c : Company) → field_of name_field (row_of Real c) ≡ text c.full_name
  unfolding lookup text_eq
  name_field-row_of c = refl

  after_add :
      {A : Type 0} (add : Exec S.Database (Unit {0})) (find_id : Exec S.Database ℤ)
      (get : ℤ → Exec S.Database A) (id : ℤ) (a : A) (t u : Tables Real)
      → Runs S law t add (ok tt) u
      → Runs S law u find_id (ok id) u
      → Runs S law u (get id) (ok a) u
      → Runs S law t (add >> (find_id >>= get)) (ok a) u
  after_add add find_id get id a t u adds finds gets =
      Runs-then S law add (λ x. find_id >>= get) tt (ok a) t u u adds
        (Runs-then S law find_id get id (ok a) u u u finds gets)

  -- Over a documented SQLite with no transaction open: adding a company and reading by the id that
  -- `GetRowID` gives, for a uuid that SQLite reads as a text and ids that rise: the uuid that is
  -- read is the one that was added, and the name is that of the company that had the uuid, or else
  -- the one that was added.
  pub add_company-get_row_id :
      (uuid name logo : Text) (r : Registry) (t : Tables Real)
      → is_literal uuid ≡ true
      → IsNumbered r
      → t companies_table ≡ some (table_of Real r)
      → (d : S.Database) → IsAt S law d t
      → Ends S law
          (add_company S uuid name logo >> (get_row_id S uuid >>= get_uuid_by_row_id S))
          d
          (ok uuid)
          (added Real law.gap uuid name logo r t)
        × Ends S law
            (add_company S uuid name logo >> (get_row_id S uuid >>= get_name_by_row_id S))
            d
            (ok (company_after uuid name logo r).full_name)
            (added Real law.gap uuid name logo r t)
  unfolding get_uuid_by_row_id get_name_by_row_id text_eq
  add_company-get_row_id uuid name logo r t plain numbered there d at =
      let c : Company = company_after uuid name logo r in
      let r' : Registry = register law.gap uuid name logo r in
      let u : Tables Real = added Real law.gap uuid name logo r t in
      let there' : u companies_table ≡ some (table_of Real r') = refl in
      let known = find_company-after law.gap uuid name logo r in
      let one =
        with_id-find_company uuid 0 r'.last_id r'.companies c
          (register-IsNumbered law.gap uuid name logo r law.gap_lem numbered) known in
      let id_read : Runs S law u (get_row_id S uuid) (ok (pos c.id)) u =
        rw known at (get_row_id-Ends S law uuid r' u plain there') in
      let add = add_company-Ends S law uuid name logo r t there in
      let uuid_read =
        get_text_field-Runs uuid_field (λ x. x.uuid) c r' u uuid-Reads (uuid_field-row_of c) one
          there' in
      let name_read =
        get_text_field-Runs name_field (λ x. x.full_name) c r' u name-Reads (name_field-row_of c)
          one there' in
      (
        after_add (add_company S uuid name logo) (get_row_id S uuid) (get_uuid_by_row_id S)
            (pos c.id) uuid t u add id_read
            (subst (λ x. Runs S law u (get_uuid_by_row_id S (pos c.id)) (ok x) u)
              (find_company-uuid uuid r'.companies c known) uuid_read)
            d at,
        after_add (add_company S uuid name logo) (get_row_id S uuid) (get_name_by_row_id S)
            (pos c.id) c.full_name t u add id_read name_read d at,
      )
