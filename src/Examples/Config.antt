-- ===== src/Examples/Config.antt =====
-- config/ over a small tree: values by their whole paths, and the names of the root's children.
use iexapitest.Base.{
  ==_iff, Bool, List, Option, Text, TextMap, [], arith, codes, false, halt, if◌then◌else◌, lookup,
  map, negsuc, none, ok, pos, refl, self_deadlock, some, suc, sym, text_eq, text_eq_iff,
  text_eq_refl, to_decimal, true, ℕ, ℤ, ◌++◌, ◌==◌, ◌||◌, ◌↔◌, ◌∙◌, ◌∷◌, ◌≡◌,
}
use iexapitest.Config.PropertyTree.{
  IsLawfulTree, JsonFiles, Lexical, PropertyTree, are_filled, has_item, is_above, items_at,
  segments, top, value_at,
}
use iexapitest.Config.Store.{
  Config, array_of, construct_config, get_array, with_array, write_string,
}
use iexapitest.Examples.Disk.{disk}
use iexapitest.Config.Manager.{ConfigManager, get_config}
use iexapitest.Config.Keys.{Key, KeyType}
use iexapitest.Config.Store.Access.{Saved, get_array_lem, with_array_twice, write_string-Saved}
use iexapitest.Config.Daemon.{section_iex, update_symbols}
use iexapitest.Config.Manager.Sharing.{MakesOne, get_config_lem}
use iexapitest.Config.Daemon.Steps.{symbols_path, timeout_path}

pub record Values : Type 0 where
  pub own : Text
  pub paths : TextMap Text
  pub names : List Text

abbrev pub leaf : Text → Values
leaf v = record { own = v; paths = []; names = [] }

abbrev pub leaf_of : Option Text → Option Values
leaf_of none = none
leaf_of (some v) = some (leaf v)

abbrev pub tree : PropertyTree
tree = record {
  Tree = Values;
  empty = leaf [];
  get = λ t k. lookup k t.paths;
  put = λ t k v. record t { paths = (k, v) ∷ t.paths };
  value = λ t. t.own;
  items = λ t. map (λ n. (n, leaf [])) t.names;
  get_child = λ t k. leaf_of (lookup k t.paths);
  add_child = λ t k x. record t { names = top k ∷ t.names };
  push_back = λ t k x. record t { names = k ∷ t.names };
  print_json = λ t. [];
  parse_json = λ text. none;
}

is_above_refl : (p : List Text) → is_above p p ≡ true
unfolding is_above
is_above_refl [] = refl
is_above_refl (s ∷ p) = rw (text_eq_refl s) (is_above_refl p)

not_above : (j k : Text) → is_above (segments j) (segments k) ≡ false → text_eq k j ≡ false
not_above j k h = ground (arith, text_eq_iff k j, is_above_refl (segments j))

no_items : (o : Option Text) → items_at tree (leaf_of o) ≡ []
no_items none = refl
no_items (some v) = refl

value_leaf_of : (o : Option Text) → o ≡ value_at tree (leaf_of o)
value_leaf_of none = refl
value_leaf_of (some v) = refl

or_comm : (a b : Bool) → (a || b) ≡ (b || a)
or_comm true true = refl
or_comm true false = refl
or_comm false true = refl
or_comm false false = refl

tree-IsLawfulTree : IsLawfulTree tree
unfolding lookup has_item
tree-IsLawfulTree = record {
  get_lem = λ t k. value_leaf_of (lookup k t.paths);
  get-put_self = λ t k v _. rw (text_eq_refl k) refl;
  get-put_ne = λ t j k v _ _ h. rw (not_above j k h) refl;
  items-put_self =
      λ t k v _. no_items (lookup k ((k, v) ∷ t.paths)) ∙ sym (no_items (lookup k t.paths));
  items-put_ne =
      λ t j k v _ _ h. no_items (lookup j ((k, v) ∷ t.paths)) ∙ sym (no_items (lookup j t.paths));
  child-add_child_ne = λ t j k x _ _ h h'. refl;
  items-add_child = λ t k x j _. or_comm (text_eq (top k) j) _;
}

abbrev pub store : JsonFiles tree disk
store = record { write_file = λ path t files. (true, path ∷ files); read_file = λ path files. none }

abbrev pub cast : Lexical ℤ
cast = record {
  show = λ n. elim n [ pos k ↦ to_decimal k | negsuc k ↦ codes "-" ++ to_decimal (suc k) ];
  read = λ text. if text_eq text (codes "7") then some (pos 7) else none;
}

abbrev pub start : Config tree disk
start = record {
  root = record {
    own = [];
    paths = (codes "iex_api.url", codes "https://cloud") ∷ (timeout_path, codes "7") ∷ [];
    names = codes "iex_api" ∷ [];
  };
  locked = false;
  config_path = codes "./daemon.cfg";
  config_folder = codes ".";
  files = [];
}

get_array_lem_example : (get_array store symbols_path update_symbols start).0 ≡ halt self_deadlock
unfolding lookup text_eq
get_array_lem_example = get_array_lem store symbols_path update_symbols start refl

write_string-Saved_example :
    Saved store start
      (tree.put start.root (codes "a") (codes "b"))
      (write_string store (codes "a") (codes "b") start)
write_string-Saved_example = write_string-Saved store (codes "a") (codes "b") start refl

with_array_twice_example :
    with_array store symbols_path
      (codes "b" ∷ [])
      (with_array store symbols_path (codes "a" ∷ []) start.root)
    ≡ tree.add_child
        (tree.add_child start.root symbols_path (array_of store tree.empty (codes "a" ∷ [])))
        symbols_path
        (array_of store tree.empty (codes "b" ∷ []))
unfolding top segments are_filled has_item text_eq
with_array_twice_example =
    with_array_twice store tree-IsLawfulTree symbols_path (codes "a" ∷ []) (codes "b" ∷ [])
      start.root refl refl refl

abbrev empty_manager : ConfigManager tree disk
empty_manager = record { configs = []; files = [] }

get_config_lem_example :
    let path = codes "./daemon.cfg" in
    let (r, m') = get_config store (codes ".") (codes "daemon.cfg") empty_manager in
    ((j : Text) (cfg : Config tree disk)
      → lookup j empty_manager.configs ≡ some cfg
      → lookup j m'.configs ≡ some cfg)
    × ((cfg : Config tree disk)
        → lookup path empty_manager.configs ≡ some cfg
        → get_config store (codes ".") (codes "daemon.cfg") empty_manager
          ≡ (ok path, empty_manager))
    × (lookup path empty_manager.configs ≡ none
        → MakesOne store path empty_manager
            (construct_config store (codes ".") (codes "daemon.cfg") empty_manager.files)
            (get_config store (codes ".") (codes "daemon.cfg") empty_manager))
    × ((p : Text)
        → r ≡ ok p
        → (p ≡ path) × (get_config store (codes ".") (codes "daemon.cfg") m' ≡ (ok p, m')))
get_config_lem_example = get_config_lem store (codes ".") (codes "daemon.cfg") empty_manager

exact : (a b : ℕ) → ((a == b) ≡ true) ↔ (a ≡ b)
exact a b = ==_iff a b

abbrev number_keys : KeyType ℕ
number_keys = record { key_eq = λ a b. a == b; to_int = λ a. a }

abbrev new_key : Key ℕ
new_key = record { section = section_iex; key = 3; key_name = codes "symbols" }
