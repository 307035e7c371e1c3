-- ===== src/Db/Prices/Ledgers.antt =====
-- What the table of prices stands for, and how a price is put into it.
use iexapitest.Db.Sqlite.Meaning.{
  Operand, Query, Row, Table, Tables, bound, delete, fits, insert, insert_into, int_eq,
  is_null_value, is_typed, keep_rows, meaning, new_row, on_table-some, preparing, put_table,
  value_eq, violates,
}
use iexapitest.Base.{
  Bool, Bool-cases, List, Text, [], ap, codes, false, if◌then◌else◌, inl, inr, lookup, map,
  map-append, not, ok, pos, refl, some, suc, sym, text_eq, ℕ, ℤ, ◌++◌, ◌∙◌, ◌∷◌, ◌≡◌,
}
use iexapitest.Db.Sqlite.{Binds, Sqlite, integer, real}
use iexapitest.Db.Sqlite.Reading.{Reads, price_columns, reads_fixed}
use iexapitest.Db.Sqlite.Engine.{IsDocumented}
use iexapitest.Db.Sqlite.Runs.{Runs, run_prepared-Runs}
use iexapitest.Db.Companies.{id_field}
use iexapitest.Db.Prices.{
  add_price, add_price_text, company_rowid_field, price_field, prices_table,
  remove_all_by_company_row_id, timestamp_field,
}
use iexapitest.Db.Statements.{remove_rows}

module _ (Real : Type 0) where
  pub record Entry : Type 0 where
    pub id : ℕ
    pub company : ℤ
    pub price : Real
    pub timestamp : ℤ

  -- The prices in the order in which they came, and the last id that was given out.
  pub record Ledger : Type 0 where
    pub entries : List Entry
    pub last_id : ℕ

  -- The ledger with a further price
  unfoldable pub enter : ℤ → Real → ℤ → Ledger → Ledger
  enter company price timestamp l = record {
    entries =
        l.entries
        ++ record { id = suc l.last_id; company = company; price = price; timestamp = timestamp }
          ∷ [];
    last_id = suc l.last_id;
  }

  -- The entries without those of the company
  unfoldable pub forget : ℤ → List Entry → List Entry
  forget company [] = []
  forget company (e ∷ es) =
      let rest = forget company es in if int_eq e.company company then rest else e ∷ rest

  abbrev pub price_row : Entry → Row Real
  price_row e =
      (id_field, integer (pos e.id))
      ∷ (price_field, real e.price)
      ∷ (timestamp_field, integer e.timestamp)
      ∷ (company_rowid_field, integer e.company)
      ∷ []

  abbrev pub prices_of : Ledger → Table Real
  prices_of l = record {
    columns = price_columns;
    rows = map price_row l.entries;
    last_id = l.last_id;
  }

  abbrev given : List (Text × Operand Real)
  given =
      (company_rowid_field, bound (codes ":rowid"))
      ∷ (price_field, bound (codes ":price"))
      ∷ (timestamp_field, bound (codes ":time"))
      ∷ []

  abbrev price_query : Query Real
  price_query = insert false prices_table given

  abbrev price_binds : ℤ → Real → ℤ → Binds Real
  price_binds company price timestamp =
      (codes ":rowid", integer company)
      ∷ (codes ":price", real price)
      ∷ (codes ":time", integer timestamp)
      ∷ []

  price-Reads : Reads Real add_price_text price_query
  unfolding lookup text_eq
  price-Reads = reads_fixed add_price_text price_query refl

  -- The tables after a price was put in
  abbrev pub entered : ℤ → Real → ℤ → Ledger → Tables Real → Tables Real
  entered company price timestamp l t =
      put_table prices_table (some (prices_of (enter company price timestamp l))) t

  insert_price :
      (gap : ℕ → ℕ) (company : ℤ) (price : Real) (timestamp : ℤ) (l : Ledger) (t : Tables Real)
      → insert_into gap false prices_table
          (price_binds company price timestamp)
          given
          (prices_of l)
          t
        ≡ (ok [], entered company price timestamp l t)
  unfolding insert_into violates is_null_value new_row enter lookup text_eq
  insert_price gap company price timestamp l t =
      ap
        (λ rs. (
          ok [],
          put_table prices_table
              (some (record { columns = price_columns; rows = rs; last_id = suc l.last_id })) t,
        ))
        (sym (map-append price_row l.entries _))

  abbrev forget_query : Query Real
  forget_query = delete prices_table (company_rowid_field, bound (codes ":searchValue"))

  abbrev of_company : ℤ → Row Real → Bool
  of_company company =
      fits ((codes ":searchValue", integer company) ∷ [])
        (some (company_rowid_field, bound (codes ":searchValue")))

  rows-forget :
      (company : ℤ) (es : List Entry)
      → keep_rows (λ row. not (of_company company row)) (map price_row es)
        ≡ map price_row (forget company es)
  unfolding forget keep_rows value_eq lookup text_eq
  rows-forget company [] = refl
  rows-forget company (e ∷ es) = elim (Bool-cases (int_eq e.company company)) [
    | inl same ↦ rw same (rows-forget company es)
    | inr other ↦ rw other (ap (λ rs. price_row e ∷ rs) (rows-forget company es))
  ]

  -- The tables with other entries
  abbrev pub with_entries : List Entry → Ledger → Tables Real → Tables Real
  with_entries es l t = put_table prices_table (some (prices_of (record l { entries = es }))) t

module _ (S : Sqlite) (law : IsDocumented S) where
  open S use {Real}

  -- `Add` on a table that stands for a ledger: afterwards it stands for the ledger with the price.
  pub add_price-Runs :
      (company : ℤ) (price : Real) (timestamp : ℤ) (l : Ledger Real) (t : Tables Real)
      → t prices_table ≡ some (prices_of Real l)
      → Runs S law t
          (add_price S company price timestamp)
          (ok tt)
          (entered Real company price timestamp l t)
  unfolding add_price meaning preparing is_typed lookup text_eq
  add_price-Runs company price timestamp l t there =
      run_prepared-Runs S law add_price_text (price_query Real)
        (price_binds Real company price timestamp) t (entered Real company price timestamp l t) []
        (price-Reads Real) refl
        (on_table-some prices_table t (λ x. (ok tt, t)) (prices_of Real l) there)
        (on_table-some prices_table t
            (λ x.
              insert_into law.gap false prices_table (price_binds Real company price timestamp)
                (given Real) x t)
            (prices_of Real l) there
          ∙ insert_price Real law.gap company price timestamp l t)

  forget-Reads :
      Reads Real (codes "DELETE FROM prices WHERE company_rowid = :searchValue") (forget_query Real)
  unfolding lookup text_eq
  forget-Reads = reads_fixed _ _ refl

  pub remove_all_by_company_row_id-Runs :
      (company : ℤ) (l : Ledger Real) (t : Tables Real)
      → t prices_table ≡ some (prices_of Real l)
      → Runs S law t
          (remove_all_by_company_row_id S company)
          (ok tt)
          (with_entries Real (forget Real company l.entries) l t)
  unfolding remove_all_by_company_row_id remove_rows meaning preparing is_typed lookup text_eq
  remove_all_by_company_row_id-Runs company l t there =
      run_prepared-Runs S law (codes "DELETE FROM prices WHERE company_rowid = :searchValue")
        (forget_query Real) ((codes ":searchValue", integer company) ∷ []) t
        (with_entries Real (forget Real company l.entries) l t) [] forget-Reads refl
        (on_table-some prices_table t (λ x. (ok tt, t)) (prices_of Real l) there)
        (on_table-some prices_table t
            (λ x. (
              ok [],
              put_table prices_table
                  (some (record x {
                    rows = keep_rows (λ row. not (of_company Real company row)) x.rows;
                  }))
                  t,
            ))
            (prices_of Real l) there
          ∙ rw (rows-forget Real company l.entries) refl)
