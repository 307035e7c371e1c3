-- ===== src/Db/Companies/Changes.antt =====
-- What becomes of the companies when a logo is set or a row is removed.
use iexapitest.Base.{
  Bool, Bool-cases, List, Text, [], ap, codes, if◌then◌else◌, inl, inr, lookup, map, not, ok, pos,
  refl, some, text_eq, ℕ, ℤ, ◌==◌, ◌>>◌, ◌∙◌, ◌∷◌, ◌≡◌,
}
use iexapitest.Db.Sqlite.{Binds, Sqlite, integer, text}
use iexapitest.Db.Sqlite.Meaning.{
  Query, Row, Tables, bound, delete, field_of, fits, int_eq, is_typed, keep_rows, meaning,
  on_table-some, preparing, put_table, select, set_field, update, update_row, value_eq,
}
use iexapitest.Db.Sqlite.Reading.{Reads, reads_fixed}
use iexapitest.Db.Sqlite.Engine.{IsDocumented}
use iexapitest.Db.Sqlite.Runs.{Ends, IsAt, Runs, Runs-then, run_prepared-Runs}
use iexapitest.Db.Statements.{remove_rows, update_field}
use iexapitest.Db.Companies.{
  companies_table, get_logo_by_row_id, id_field, logo_field, remove_by_row_id, set_logo_by_id,
}
use iexapitest.Db.Companies.RoundTrip.{by_id, get_text_field-Runs}
use iexapitest.Db.Companies.Ids.{IsNumbered, with_id, with_id-find_company}
use iexapitest.Db.Companies.Records.{Company, Registry, find_company, row_of, table_of}

abbrev with_logo : Text → Company → Company
with_logo link c = record c { logo = link }

abbrev pub has_id : ℤ → Company → Bool
has_id row_id c = int_eq (pos c.id) row_id

-- The registry with another logo for the company of the id
unfoldable pub relabel : ℤ → Text → List Company → List Company
relabel row_id link [] = []
relabel row_id link (c ∷ cs) =
    (if has_id row_id c then record c { logo = link } else c) ∷ relabel row_id link cs

-- The registry without the company of the id
unfoldable pub strike : ℤ → List Company → List Company
strike row_id [] = []
strike row_id (c ∷ cs) = let rest = strike row_id cs in if has_id row_id c then rest else c ∷ rest

with_id-relabel :
    (k : ℕ) (link : Text) (cs : List Company)
    → with_id k (relabel (pos k) link cs) ≡ map (with_logo link) (with_id k cs)
unfolding with_id relabel int_eq
with_id-relabel k link [] = refl
with_id-relabel k link (c ∷ cs) = elim (Bool-cases (c.id == k)) [
  | inl e ↦ rw (e, e) (ap (λ xs. record c { logo = link } ∷ xs) (with_id-relabel k link cs))
  | inr e ↦ rw (e, e) (with_id-relabel k link cs)
]

module _ (Real : Type 0) where
  abbrev logo_query : Query Real
  logo_query =
      update companies_table logo_field (bound (codes ":newValue"))
        (id_field, bound (codes ":searchValue"))

  abbrev logo_binds : ℤ → Text → Binds Real
  logo_binds row_id link =
      (codes ":newValue", text link) ∷ (codes ":searchValue", integer row_id) ∷ []

  abbrev remove_query : Query Real
  remove_query = delete companies_table (id_field, bound (codes ":searchValue"))

  abbrev at_id : ℤ → Row Real → Bool
  at_id row_id =
      fits ((codes ":searchValue", integer row_id) ∷ [])
        (some (id_field, bound (codes ":searchValue")))

  rows-relabel :
      (row_id : ℤ) (link : Text) (cs : List Company)
      → map
          (update_row
            (fits (logo_binds row_id link) (some (id_field, bound (codes ":searchValue"))))
            logo_field
            (text link))
          (map (row_of Real) cs)
        ≡ map (row_of Real) (relabel row_id link cs)
  unfolding relabel set_field value_eq lookup text_eq
  rows-relabel row_id link [] = refl
  rows-relabel row_id link (c ∷ cs) = elim (Bool-cases (has_id row_id c)) [
    | inl e ↦
        rw e (ap (λ rs. row_of Real (record c { logo = link }) ∷ rs) (rows-relabel row_id link cs))
    | inr e ↦ rw e (ap (λ rs. row_of Real c ∷ rs) (rows-relabel row_id link cs))
  ]

  rows-strike :
      (row_id : ℤ) (cs : List Company)
      → keep_rows (λ row. not (at_id row_id row)) (map (row_of Real) cs)
        ≡ map (row_of Real) (strike row_id cs)
  unfolding strike keep_rows value_eq lookup text_eq
  rows-strike row_id [] = refl
  rows-strike row_id (c ∷ cs) = elim (Bool-cases (has_id row_id c)) [
    | inl e ↦ rw e (rows-strike row_id cs)
    | inr e ↦ rw e (ap (λ rs. row_of Real c ∷ rs) (rows-strike row_id cs))
  ]

  -- The tables with other companies
  abbrev pub with_companies : List Company → Registry → Tables Real → Tables Real
  with_companies cs r t =
      put_table companies_table (some (table_of Real (record r { companies = cs }))) t

module _ (S : Sqlite) (law : IsDocumented S) where
  open S use {Real}

  logo-Reads :
      Reads Real
        (codes "UPDATE companies SET logo = :newValue WHERE id = :searchValue")
        (logo_query Real)
  unfolding lookup text_eq
  logo-Reads = reads_fixed _ _ refl

  remove-Reads :
      Reads Real (codes "DELETE FROM companies WHERE id = :searchValue") (remove_query Real)
  unfolding lookup text_eq
  remove-Reads = reads_fixed _ _ refl

  pub set_logo_by_id-Runs :
      (row_id : ℤ) (link : Text) (r : Registry) (t : Tables Real)
      → t companies_table ≡ some (table_of Real r)
      → Runs S law t
          (set_logo_by_id S row_id link)
          (ok tt)
          (with_companies Real (relabel row_id link r.companies) r t)
  unfolding set_logo_by_id update_field meaning preparing is_typed lookup text_eq
  set_logo_by_id-Runs row_id link r t there =
      run_prepared-Runs S law
        (codes "UPDATE companies SET logo = :newValue WHERE id = :searchValue") (logo_query Real)
        (logo_binds Real row_id link) t (with_companies Real (relabel row_id link r.companies) r t)
        [] logo-Reads refl
        (on_table-some companies_table t (λ x. (ok tt, t)) (table_of Real r) there)
        (on_table-some companies_table t
            (λ x. (
              ok [],
              put_table companies_table
                  (some (record x {
                    rows =
                        map
                          (update_row
                            (fits (logo_binds Real row_id link)
                              (some (id_field, bound (codes ":searchValue"))))
                            logo_field (text link))
                          x.rows;
                  }))
                  t,
            ))
            (table_of Real r) there
          ∙ rw (rows-relabel Real row_id link r.companies) refl)

  pub remove_by_row_id-Runs :
      (row_id : ℤ) (r : Registry) (t : Tables Real)
      → t companies_table ≡ some (table_of Real r)
      → Runs S law t
          (remove_by_row_id S row_id)
          (ok tt)
          (with_companies Real (strike row_id r.companies) r t)
  unfolding remove_by_row_id remove_rows meaning preparing is_typed lookup text_eq
  remove_by_row_id-Runs row_id r t there =
      run_prepared-Runs S law (codes "DELETE FROM companies WHERE id = :searchValue")
        (remove_query Real) ((codes ":searchValue", integer row_id) ∷ []) t
        (with_companies Real (strike row_id r.companies) r t) [] remove-Reads refl
        (on_table-some companies_table t (λ x. (ok tt, t)) (table_of Real r) there)
        (on_table-some companies_table t
            (λ x. (
              ok [],
              put_table companies_table
                  (some (record x { rows = keep_rows (λ row. not (at_id Real row_id row)) x.rows }))
                  t,
            ))
            (table_of Real r) there
          ∙ rw (rows-strike Real row_id r.companies) refl)

  logo_field-row_of : (c : Company) → field_of logo_field (row_of Real c) ≡ text c.logo
  unfolding lookup text_eq
  logo_field-row_of c = refl

  read_logo-Reads :
      Reads Real
        (codes "SELECT logo FROM companies WHERE id = :compareValue")
        (select logo_field companies_table (by_id Real))
  unfolding lookup text_eq
  read_logo-Reads = reads_fixed _ _ refl

  -- Over a documented SQLite with no transaction open: `SetLogoByID` with the id of a company that
  -- is in the registry, where ids rise, and then `GetLogoByRowID`: the link is read, and afterwards
  -- the table stands for the registry in which only the logo of the company of that id is another.
  pub set_logo_by_id-get_logo_by_row_id :
      (uuid link : Text) (c : Company) (r : Registry) (t : Tables Real)
      → IsNumbered r
      → find_company uuid r.companies ≡ some c
      → t companies_table ≡ some (table_of Real r)
      → (d : S.Database) → IsAt S law d t
      → Ends S law
          (set_logo_by_id S (pos c.id) link >> get_logo_by_row_id S (pos c.id))
          d
          (ok link)
          (with_companies Real (relabel (pos c.id) link r.companies) r t)
  unfolding get_logo_by_row_id text_eq
  set_logo_by_id-get_logo_by_row_id uuid link c r t numbered known there =
      let cs = relabel (pos c.id) link r.companies in
      let u = with_companies Real cs r t in
      let one =
        with_id-relabel c.id link r.companies
        ∙ ap (map (with_logo link))
            (with_id-find_company uuid 0 r.last_id r.companies c numbered known) in
      Runs-then S law (set_logo_by_id S (pos c.id) link) (λ x. get_logo_by_row_id S (pos c.id)) tt
        (ok link) t u u (set_logo_by_id-Runs (pos c.id) link r t there)
        (get_text_field-Runs S law logo_field (λ x. x.logo) (record c { logo = link })
          (record r { companies = cs }) u read_logo-Reads
          (logo_field-row_of (record c { logo = link })) one refl)
