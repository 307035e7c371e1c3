-- ===== src/Db/Companies/Storing.antt =====
-- Adding a company.
use iexapitest.Db.Sqlite.Meaning.{
  Operand, Query, Tables, bound, insert, insert_into, is_null_value, is_typed, meaning, new_row,
  on_table-some, preparing, put_table, violates,
}
use iexapitest.Base.{
  Bool, List, Option-cases, Text, [], ap, codes, false, inl, inr, lookup, map, map-append, ok, refl,
  some, suc, sym, text_eq, true, ℕ, ◌||◌, ◌∙◌, ◌∷◌, ◌≡◌,
}
use iexapitest.Db.Sqlite.{Binds, Sqlite, text}
use iexapitest.Db.Sqlite.Reading.{Reads, company_columns, reads_fixed}
use iexapitest.Db.Companies.{
  add_company, add_company_text, companies_table, logo_field, name_field, uuid_field,
}
use iexapitest.Db.Companies.Records.{
  Company, Registry, any_row-uuid, find_company, found, register, row_of, table_of,
}
use iexapitest.Db.Sqlite.Engine.{IsDocumented}
use iexapitest.Db.Sqlite.Runs.{Ends, IsAt, run_prepared-Runs}

module _ (Real : Type 0) where
  abbrev add_query : Query Real
  add_query = insert true companies_table (
      (uuid_field, bound (codes ":uuid"))
      ∷ (name_field, bound (codes ":name"))
      ∷ (logo_field, bound (codes ":logo"))
      ∷ [])

  abbrev add_binds : Text → Text → Text → Binds Real
  add_binds uuid name logo =
      (codes ":uuid", text uuid) ∷ (codes ":name", text name) ∷ (codes ":logo", text logo) ∷ []

  add-Reads : Reads Real add_company_text add_query
  unfolding lookup text_eq
  add-Reads = reads_fixed add_company_text add_query refl

  or_false : (b : Bool) → (b || false) ≡ b
  or_false true = refl
  or_false false = refl

  -- The tables after an addition
  abbrev pub added : (ℕ → ℕ) → Text → Text → Text → Registry → Tables Real → Tables Real
  added gap uuid name logo r t =
      put_table companies_table (some (table_of Real (register gap uuid name logo r))) t

  abbrev given : List (Text × Operand Real)
  given =
      (uuid_field, bound (codes ":uuid"))
      ∷ (name_field, bound (codes ":name"))
      ∷ (logo_field, bound (codes ":logo"))
      ∷ []

  violates_company :
      (uuid name logo : Text) (id : ℕ) (cs : List Company)
      → violates company_columns
          (map (row_of Real) cs)
          (new_row id (add_binds uuid name logo) given company_columns)
        ≡ found Real (find_company uuid cs)
  unfolding violates new_row is_null_value lookup text_eq
  violates_company uuid name logo id cs = or_false _ ∙ any_row-uuid Real uuid cs

  -- The row that is put in.
  new_row_company :
      (uuid name logo : Text) (id : ℕ)
      → new_row id (add_binds uuid name logo) given company_columns
        ≡ row_of Real (record { id = id; uuid = uuid; full_name = name; logo = logo })
  unfolding new_row lookup text_eq
  new_row_company uuid name logo id = refl

  insert_company :
      (gap : ℕ → ℕ) (uuid name logo : Text) (r : Registry) (t : Tables Real)
      → insert_into gap true companies_table (add_binds uuid name logo) given (table_of Real r) t
        ≡ (ok [], added gap uuid name logo r t)
  unfolding insert_into register new_row lookup text_eq
  insert_company gap uuid name logo r t =
      let rows = map (row_of Real) r.companies in
      elim (Option-cases (find_company uuid r.companies)) [
        | inl e ↦
            rw (violates_company uuid name logo (suc r.last_id) r.companies, e)
              (ap
                (λ rs. (
                  ok [],
                  put_table companies_table
                      (some
                        (record { columns = company_columns; rows = rs; last_id = suc r.last_id }))
                      t,
                ))
                (sym (map-append (row_of Real) r.companies _)))
        | inr (c, e) ↦ rw (violates_company uuid name logo (suc r.last_id) r.companies, e) refl
      ]

module _ (S : Sqlite) (law : IsDocumented S) where
  open S use {Real}

  -- Over a documented SQLite with no transaction open, `Add` on a table that stands for a registry
  -- returns: afterwards the table stands for the registry in which the company is registered (where
  -- the uuid was there, no company has changed, and there may be a gap in the ids), no other table
  -- has changed, and no transaction is open.
  pub add_company-Ends :
      (uuid name logo : Text) (r : Registry) (t : Tables Real)
      → t companies_table ≡ some (table_of Real r)
      → (d : S.Database) → IsAt S law d t
      → Ends S law (add_company S uuid name logo) d (ok tt) (added Real law.gap uuid name logo r t)
  unfolding add_company meaning preparing is_typed lookup text_eq
  add_company-Ends uuid name logo r t there =
      run_prepared-Runs S law add_company_text (add_query Real) (add_binds Real uuid name logo) t
        (added Real law.gap uuid name logo r t) [] (add-Reads Real) refl
        (on_table-some companies_table t (λ x. (ok tt, t)) (table_of Real r) there)
        (on_table-some companies_table t
            (λ x.
              insert_into law.gap true companies_table (add_binds Real uuid name logo) (given Real)
                x t)
            (table_of Real r) there
          ∙ insert_company Real law.gap uuid name logo r t)
