-- ===== src/Base/Maps.antt =====
-- std::map<std::string, V>: pairs in the order of their keys.
use mathlib.Core.Path.{◌≡◌, refl}
use mathlib.Core.Option.{Option, none, some}
use mathlib.Core.List.{List, [], ◌∷◌}
use native.Mathlib.Omega.{arith}
use iexapitest.Base.Tests.{Option-cases, if◌then◌else◌}
use iexapitest.Base.Texts.{Text, text_eq, text_eq_iff, text_lt}

abbrev pub TextMap {ℓ} : Type ℓ → Type ℓ
TextMap V = List (Text × V)

module _ {ℓ} {V : Type ℓ} where
  -- `find(k)`, `at(k)`
  unfoldable pub lookup : Text → TextMap V → Option V
  lookup k [] = none
  lookup k ((j, v) ∷ m) = if text_eq j k then some v else lookup k m

  -- A key that is new goes in front of the first greater one.
  insert_new : Text → V → TextMap V → TextMap V
  insert_new k v [] = (k, v) ∷ []
  insert_new k v ((j, w) ∷ m) =
      let rest = insert_new k v m in if text_lt k j then (k, v) ∷ (j, w) ∷ m else (j, w) ∷ rest

  -- `emplace(k, v)`, `insert({k, v})`: nothing happens where the key is there.
  unfoldable pub emplace : Text → V → TextMap V → TextMap V
  unfolding insert_new lookup
  emplace k v m = elim (lookup k m) [ none ↦ insert_new k v m | some _ ↦ m ]

  lookup-insert_new :
      (j k : Text) (v : V) (m : TextMap V)
      → lookup k m ≡ none
      → lookup j (insert_new k v m) ≡ (if text_eq k j then some v else lookup j m)
  unfolding lookup insert_new
  lookup-insert_new j k v [] h = refl
  lookup-insert_new j k v ((i, w) ∷ m) h =
      ground (arith, lookup-insert_new j k v m, text_eq_iff i k, text_eq_iff i j, text_eq_iff k j)

  -- The first value of a key stays.
  abbrev pub or_first : Option V → Option V → Option V
  or_first none o = o
  or_first (some v) o = some v

  pub lookup-emplace :
      (j k : Text) (v : V) (m : TextMap V)
      → lookup j (emplace k v m) ≡ or_first (lookup j m) (if text_eq k j then some v else none)
  unfolding emplace
  lookup-emplace j k v m =
      ground (arith, lookup-insert_new j k v m, text_eq_iff k j, Option-cases (lookup j m))
