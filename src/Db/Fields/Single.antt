-- ===== src/Db/Fields/Single.antt =====
-- When a single value is returned.
use iexapitest.Base.{
  List, Option, Text, [], arith, codes, err, inl, inr, length, logic_error, none, ok, out_of_range,
  refl, some, ◌∷◌, ◌≡◌, ◌⊎◌,
}
use iexapitest.Db.Fields.{get_field_value, get_field_value_list}

module _ {A : Type 0} where
  -- What `GetFieldValue` does, by the rows. One row that is not NULL: it returns the value, and
  -- `GetFieldValueList` returns that value alone. The first row is NULL: an out_of_range. No row, or
  -- more than one and the first is not NULL: a logic_error.
  pub get_field_value_lem :
      (field value : Text) (null_value : A) (rows : List (Option A))
      → ((a : A) × (rows ≡ some a ∷ [])
          × (get_field_value field value rows ≡ ok a)
          × (get_field_value_list null_value rows ≡ a ∷ []))
        ⊎ ((rest : List (Option A)) × (rows ≡ none ∷ rest)
            × (get_field_value field value rows
                ≡ err (out_of_range (codes "Asked results is NULL"))))
        ⊎ ((m : Text) × (get_field_value field value rows ≡ err (logic_error m))
            × (¬ (length rows ≡ 1)))
  unfolding get_field_value get_field_value_list
  get_field_value_lem field value null_value [] =
      inr (inr (codes "There is no one results", refl, λ h. absurd (omega arith)))
  get_field_value_lem field value null_value (none ∷ rows) = inr (inl (rows, refl, refl))
  get_field_value_lem field value null_value (some a ∷ []) = inl (a, refl, refl, refl)
  get_field_value_lem field value null_value (some a ∷ b ∷ rows) =
      inr (inr (_, refl, λ h. absurd (omega arith)))
