-- ===== src/Config/Keys.antt =====
-- config.h, namespace additions: Section, Key and KeyManager. A section is its name.
pub mod Lookup
use iexapitest.Base.{
  Bool, Exception, List, Result, Text, [], codes, err, false, if◌then◌else◌, invalid_argument, ok,
  text_eq, text_lt, to_decimal, ℕ, ◌&&◌, ◌++◌, ◌||◌, ◌∷◌,
}

pub record Section : Type 0 where
  pub name : Text

-- `operator()(key)`
unfoldable pub section_key : Section → Text → Text
section_key s key = s.name ++ (codes "." ++ key)

unfoldable pub section_eq : Section → Section → Bool
section_eq s rhs = text_eq rhs.name s.name

unfoldable pub section_lt : Section → Section → Bool
section_lt s rhs = text_lt s.name rhs.name

pub record Key (T : Type 0) : Type 0 where
  pub section : Section
  pub key : T
  pub key_name : Text

-- What the template asks of its parameter: `==` and `static_cast<int>`.
pub record KeyType (T : Type 0) : Type 0 where
  pub key_eq : T → T → Bool
  pub to_int : T → ℕ

module _ {T : Type 0} (K : KeyType T) where
  open K use {key_eq, to_int}

  unfoldable pub same_key : Key T → Key T → Bool
  unfolding section_eq
  same_key k rhs =
      section_eq k.section rhs.section && key_eq k.key rhs.key && text_eq k.key_name rhs.key_name

  not_found : Section → T → Exception
  not_found section key = invalid_argument (
      codes "Key "
      ++ (to_decimal (to_int key)
          ++ (codes " does not found in " ++ (section.name ++ codes " section config keys"))))

  -- `KeyManager::operator()`
  unfoldable pub key_path : List (Key T) → Section → T → Result Text
  unfolding not_found section_eq section_key
  key_path [] section key = err (not_found section key)
  key_path (item ∷ keys) section key =
      if section_eq section item.section && key_eq key item.key
      then ok (section_key item.section item.key_name)
      else key_path keys section key

  has_key : List (Key T) → Key T → Bool
  unfolding same_key
  has_key [] key = false
  has_key (item ∷ keys) key = same_key item key || has_key keys key

  -- `AddKey`
  unfoldable pub add_key : List (Key T) → Key T → List (Key T)
  unfolding has_key
  add_key keys key = if has_key keys key then keys else keys ++ key ∷ []
