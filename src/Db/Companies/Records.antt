-- ===== src/Db/Companies/Records.antt =====
-- What the table of companies stands for: companies in the order in which they were added.
use iexapitest.Base.{
  Bool, Bool-cases, List, Option, Text, [], false, if◌then◌else◌, inl, inr, lookup, map, none, pos,
  refl, some, suc, text_eq, true, ℕ, ◌++◌, ◌∷◌, ◌≡◌,
}
use iexapitest.Db.Sqlite.{integer, text}
use iexapitest.Db.Sqlite.Meaning.{Row, Table, any_row, field_of, value_eq}
use iexapitest.Db.Sqlite.Reading.{company_columns}
use iexapitest.Db.Companies.{id_field, logo_field, name_field, uuid_field}

pub record Company : Type 0 where
  pub id : ℕ
  pub uuid : Text
  pub full_name : Text
  pub logo : Text

-- The companies, and the last id that was given out.
pub record Registry : Type 0 where
  pub companies : List Company
  pub last_id : ℕ

-- The first company of that uuid
unfoldable pub find_company : Text → List Company → Option Company
find_company uuid [] = none
find_company uuid (c ∷ cs) = if text_eq c.uuid uuid then some c else find_company uuid cs

-- The registry with a further company
abbrev pub enrolled : Text → Text → Text → Registry → Registry
enrolled uuid name logo r = record {
  companies =
      r.companies ++ record { id = suc r.last_id; uuid = uuid; full_name = name; logo = logo } ∷ [];
  last_id = suc r.last_id;
}

abbrev pub unless_found {ℓ} : {A : Type ℓ} → Option Company → A → A → A
unless_found none new old = new
unless_found (some c) new old = old

-- What `Add` promises: where the uuid is there already, only a gap in the ids is left.
unfoldable pub register : (ℕ → ℕ) → Text → Text → Text → Registry → Registry
unfolding find_company
register gap uuid name logo r =
    unless_found (find_company uuid r.companies) (enrolled uuid name logo r)
      (record r { last_id = gap r.last_id })

module _ (Real : Type 0) where
  abbrev pub row_of : Company → Row Real
  row_of c =
      (id_field, integer (pos c.id))
      ∷ (uuid_field, text c.uuid)
      ∷ (name_field, text c.full_name)
      ∷ (logo_field, text c.logo)
      ∷ []

  abbrev pub table_of : Registry → Table Real
  table_of r = record {
    columns = company_columns;
    rows = map row_of r.companies;
    last_id = r.last_id;
  }

  abbrev pub found : Option Company → Bool
  found none = false
  found (some c) = true

  -- The rows with a uuid
  pub any_row-uuid :
      (uuid : Text) (cs : List Company)
      → any_row (λ r. value_eq (field_of uuid_field r) (text uuid)) (map row_of cs)
        ≡ found (find_company uuid cs)
  unfolding any_row value_eq find_company lookup text_eq
  any_row-uuid uuid [] = refl
  any_row-uuid uuid (c ∷ cs) = elim (Bool-cases (text_eq c.uuid uuid)) [
    | inl e ↦ rw e refl
    | inr e ↦ rw e (any_row-uuid uuid cs)
  ]
