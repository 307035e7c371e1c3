-- ===== src/Db/Statements/Lists.antt =====
-- One value of a column, and the list of its values.
use iexapitest.Base.{
  Exec, List, Result, Text, [], and_then, ap, arith, err, halt, inl, inr, map, ok, some, ℤ, ◌>>=◌,
  ◌∙◌, ◌∷◌, ◌≡◌,
}
use iexapitest.Db.Sqlite.{Sqlite, Value, integer}
use iexapitest.Db.Fields.{get_field_value}
use iexapitest.Db.Fields.Single.{get_field_value_lem}
use iexapitest.Db.Statements.{create_get_field_query, get_text_field, show_int, text_or_null}
use iexapitest.Db.Statements.Columns.{
  column_values, get_column_value, get_filtered_list, string_type,
}

module _ {D A B C : Type 0} where
  -- Two continuations of one action, the second of which succeeds where the first does
  succeeds_too :
      (m : Exec D A) (f : A → Exec D B) (g : A → Exec D C) (b : B) (c : C) (d d' : D)
      → ((a : A) (s : D) → f a s ≡ (ok b, d') → g a s ≡ (ok c, d'))
      → (m >>= f) d ≡ (ok b, d')
      → (m >>= g) d ≡ (ok c, d')
  succeeds_too m f g b c d d' h = go (m d).0 (m d).1
    where
      go : (r : Result A) (s : D) → and_then r f s ≡ (ok b, d') → and_then r g s ≡ (ok c, d')
      go (ok a) s e = h a s e
      go (err x) s e = cc
      go (halt x) s e = cc

module _ (S : Sqlite) where
  open S use {Database, Real}

  text_or_null-some : (v : Value Real) (x : Text) → text_or_null S v ≡ some x → S.get_string v ≡ x
  unfolding text_or_null
  text_or_null-some v x e = ground arith

  -- Values whose rows are one text
  one-values :
      (vs : List (Value Real)) (x : Text)
      → map (text_or_null S) vs ≡ some x ∷ []
      → column_values S string_type vs ≡ x ∷ []
  unfolding column_values get_column_value
  one-values [] x e = cc
  one-values (v ∷ []) x e = ap (λ y. y ∷ []) (text_or_null-some v x cc)
  one-values (v ∷ w ∷ vs) x e = cc

  single-values :
      (filter shown : Text) (vs : List (Value Real)) (x : Text)
      → get_field_value filter shown (map (text_or_null S) vs) ≡ ok x
      → column_values S string_type vs ≡ x ∷ []
  single-values filter shown vs x e =
      elim (get_field_value_lem filter shown [] (map (text_or_null S) vs)) [
        | inl (y, one, value, all) ↦ one-values vs x (one ∙ ap (λ z. some z ∷ []) cc)
        | inr (inl (rest, one, value)) ↦ absurd cc
        | inr (inr (m, value, many)) ↦ absurd cc
      ]

  -- On any SQLite: where `GetFieldValue<string, long long>` returns a text,
  -- `GetFieldValueList<string, long long>` of the same column under the same condition, from the same
  -- state, returns the list of that text alone and leaves the same state.
  get_filtered_list-get_text_field :
      (table column filter : Text) (value : ℤ) (x : Text) (d d' : Database)
      → get_text_field S table column filter value d ≡ (ok x, d')
      → get_filtered_list S string_type table column filter (integer value) d ≡ (ok (x ∷ []), d')
  unfolding get_text_field get_filtered_list
  get_filtered_list-get_text_field table column filter value x d d' e =
      succeeds_too (create_get_field_query S table column filter (integer value)) _ _ x (x ∷ []) d
        d'
        (λ query s.
          succeeds_too (S.run query.cmd query.binds) _ _ x (x ∷ []) s d'
            (λ values s' e'. (rw (single-values filter (show_int value) values x cc) cc)))
        e
