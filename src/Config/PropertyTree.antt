-- ===== src/Config/PropertyTree.antt =====
-- boost::property_tree as the program uses it: an unknown tree with its operations on paths, the
-- JSON files that it is kept in, and boost::lexical_cast.
use iexapitest.Base.{
  Bool, List, Option, Text, [], false, if◌then◌else◌, is_empty, none, not, some, text_eq, true, ℤ,
  ◌&&◌, ◌==◌, ◌||◌, ◌∷◌, ◌≡◌,
}
use iexapitest.Filesystem.Syscalls.{Posix}

pub record PropertyTree : Type 1 where
  pub Tree : Type 0
  pub empty : Tree
  -- `get<string>(path)`, `none` where there is no such path
  pub get : Tree → Text → Option Text
  pub put : Tree → Text → Text → Tree
  -- `data()`, and the children in their order with their keys
  pub value : Tree → Text
  pub items : Tree → List (Text × Tree)
  pub get_child : Tree → Text → Option Tree
  pub add_child : Tree → Text → Tree → Tree
  pub push_back : Tree → Text → Tree → Tree
  -- `write_json` to a stream, `read_json` from one
  pub print_json : Tree → Text
  pub parse_json : Text → Option Tree

-- `write_json` and `read_json` on files. A write that throws may have changed the files too, since the
-- file is opened first; a read is `none` where it throws.
pub record JsonFiles (T : PropertyTree) (P : Posix) : Type 0 where
  pub write_file : Text → T.Tree → P.State → Bool × P.State
  pub read_file : Text → P.State → Option T.Tree

-- `lexical_cast` to and from text; `read` is `none` where it throws.
pub record Lexical (A : Type 0) : Type 0 where
  pub show : A → Text
  pub read : Text → Option A

-- The casts of the two widths of integers that the program reads.
pub record Integers : Type 0 where
  pub int : Lexical ℤ
  pub int64 : Lexical ℤ

-- The elements of a path.
unfoldable pub segments : Text → List Text
segments [] = [] ∷ []
segments (c ∷ s) = elim (segments s) [
  | [] ↦ [] ∷ []
  | first ∷ rest ↦ if c == b'.' then [] ∷ first ∷ rest else (c ∷ first) ∷ rest
]

unfoldable pub are_filled : List Text → Bool
are_filled [] = true
are_filled (s ∷ p) = not (is_empty s) && are_filled p

-- No element of the path is empty, so each names a child.
abbrev pub is_plain : Text → Bool
is_plain path = are_filled (segments path)

-- The first path is the second, or leads to a tree above it.
unfoldable pub is_above : List Text → List Text → Bool
is_above [] q = true
is_above (s ∷ p) [] = false
is_above (s ∷ p) (t ∷ q) = text_eq s t && is_above p q

-- The first element of a path.
unfoldable pub top : Text → Text
unfolding segments
top path = elim (segments path) [ [] ↦ [] | first ∷ rest ↦ first ]

module _ (T : PropertyTree) where
  -- `root.find(key) != root.not_found()`: the key is compared with those of the root's own children.
  unfoldable pub has_item : List (Text × T.Tree) → Text → Bool
  has_item [] key = false
  has_item ((name, t) ∷ items) key = text_eq name key || has_item items key

  abbrev pub value_at : Option T.Tree → Option Text
  value_at none = none
  value_at (some child) = some (T.value child)

  abbrev pub items_at : Option T.Tree → List (Text × T.Tree)
  items_at none = []
  items_at (some child) = T.items child

  -- `get` is the text at the path. `put` creates the path where it is not there, and leaves what does
  -- not lie on it, and the children of what it sets. `add_child` puts a further child behind those
  -- that are there. Plain paths only: the empty path is the root's.
  pub record IsLawfulTree : Type 0 where
    pub get_lem : (t : T.Tree) (k : Text) → T.get t k ≡ value_at (T.get_child t k)
    pub get-put_self :
        (t : T.Tree) (k v : Text) → is_plain k ≡ true → T.get (T.put t k v) k ≡ some v
    pub get-put_ne :
        (t : T.Tree) (j k v : Text)
        → is_plain j ≡ true
        → is_plain k ≡ true
        → is_above (segments j) (segments k) ≡ false
        → T.get (T.put t k v) j ≡ T.get t j
    pub items-put_self :
        (t : T.Tree) (k v : Text)
        → is_plain k ≡ true
        → items_at (T.get_child (T.put t k v) k) ≡ items_at (T.get_child t k)
    pub items-put_ne :
        (t : T.Tree) (j k v : Text)
        → is_plain j ≡ true
        → is_plain k ≡ true
        → is_above (segments j) (segments k) ≡ false
        → items_at (T.get_child (T.put t k v) j) ≡ items_at (T.get_child t j)
    pub child-add_child_ne :
        (t : T.Tree) (j k : Text) (x : T.Tree)
        → is_plain j ≡ true
        → is_plain k ≡ true
        → is_above (segments j) (segments k) ≡ false
        → is_above (segments k) (segments j) ≡ false
        → T.get_child (T.add_child t k x) j ≡ T.get_child t j
    pub items-add_child :
        (t : T.Tree) (k : Text) (x : T.Tree) (j : Text)
        → is_plain k ≡ true
        → has_item (T.items (T.add_child t k x)) j ≡ has_item (T.items t) j || text_eq (top k) j
