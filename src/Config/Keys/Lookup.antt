-- ===== src/Config/Keys/Lookup.antt =====
-- What `AddKey` does to the look-up of keys.
use iexapitest.Base.{
  Bool-cases, List, Result, Text, [], arith, err, halt, inl, inr, ok, refl, text_eq_iff, true, ◌&&◌,
  ◌++◌, ◌↔◌, ◌∷◌, ◌≡◌, ◌⊎◌,
}
use iexapitest.Config.Keys.{
  Key, KeyType, Section, add_key, has_key, key_path, not_found, section_eq, section_key,
}

-- The first answer that is no exception.
abbrev or_else : Result Text → Result Text → Result Text
or_else (ok path) r = ok path
or_else (err e) r = r
or_else (halt f) r = halt f

module _ {T : Type 0} (K : KeyType T) where
  key_path_cases :
      (keys : List (Key T)) (section : Section) (key : T)
      → ((path : Text) × (key_path K keys section key ≡ ok path))
        ⊎ (key_path K keys section key ≡ err (not_found K section key))
  unfolding key_path
  key_path_cases [] section key = inr refl
  key_path_cases (k ∷ keys) section key =
      elim (Bool-cases (section_eq section k.section && K.key_eq key k.key)) [
        | inl here ↦ inl (section_key k.section k.key_name, rw (key_path, here))
        | inr there ↦ rw (key_path, there) (key_path_cases keys section key)
      ]

  key_path-append :
      (keys : List (Key T)) (item : Key T) (section : Section) (key : T)
      → key_path K (keys ++ item ∷ []) section key
        ≡ or_else (key_path K keys section key) (key_path K (item ∷ []) section key)
  unfolding key_path
  key_path-append [] item section key = refl
  key_path-append (k ∷ keys) item section key =
      ground (arith, key_path-append keys item section key)

  module _ (exact : (a b : T) → (K.key_eq a b ≡ true) ↔ (a ≡ b)) where
    found_again :
        (keys : List (Key T)) (item : Key T) (section : Section) (key : T)
        → has_key K keys item ≡ true
        → (key_path K keys section key
            ≡ or_else (key_path K keys section key) (key_path K (item ∷ []) section key))
    unfolding key_path has_key
    found_again [] item section key h = cc
    found_again (k ∷ keys) item section key h = ground (
      arith,
      found_again keys item section key,
      key_path_cases keys section key,
      exact key k.key,
      exact key item.key,
      exact k.key item.key,
      text_eq_iff k.section.name section.name,
      text_eq_iff item.section.name section.name,
      text_eq_iff item.section.name k.section.name,
    )

    -- Where the == of the keys is equality, adding a key changes no answer that there was. Where
    -- there was none, the key answers for its section and its name if it is the one that is asked for.
    key_path-add_key :
        (keys : List (Key T)) (item : Key T) (section : Section) (key : T)
        → key_path K (add_key K keys item) section key
          ≡ or_else (key_path K keys section key) (key_path K (item ∷ []) section key)
    unfolding add_key
    key_path-add_key keys item section key = elim (Bool-cases (has_key K keys item)) [
      | inl old ↦ rw (add_key, old) (found_again keys item section key old)
      | inr new ↦ rw (add_key, new) (key_path-append keys item section key)
    ]
