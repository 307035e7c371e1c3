-- ===== src/Examples/Trees.antt =====
-- Property trees as they are documented: a tree is its data, with a child put in front or not.
use iexapitest.Base.{
  Bool-cases, List, Option, Text, [], ap, arith, false, if◌then◌else◌, inl, inr, is_empty, none,
  refl, some, text_eq, text_eq_iff, text_eq_refl, true, ◌++◌, ◌∙◌, ◌∷◌, ◌≡◌,
}
use iexapitest.Config.PropertyTree.{PropertyTree, value_at}
use iexapitest.Rpc.Method.Replies.{IsBuildable, is_key}

pub data Node : Type 0 where
  stem : Text → Node
  with_child : Text → Node → Node → Node

own : Node → Text
own (stem v) = v
own (with_child k x t) = own t

set_own : Text → Node → Node
set_own v (stem w) = stem v
set_own v (with_child k x t) = with_child k x (set_own v t)

items_of : Node → List (Text × Node)
items_of (stem v) = []
items_of (with_child k x t) = (k, x) ∷ items_of t

put_behind : Node → Text → Node → Node
put_behind (stem v) k x = with_child k x (stem v)
put_behind (with_child j y t) k x = with_child j y (put_behind t k x)

child_of : Node → Text → Option Node
child_of (stem v) k = none
child_of (with_child j y t) k = let rest = child_of t k in if text_eq j k then some y else rest

put_child : Node → Text → Text → Node
unfolding set_own
put_child (stem w) k v = with_child k (stem v) (stem w)
put_child (with_child j y t) k v =
    let rest = put_child t k v in
    if text_eq j k then with_child j (set_own v y) t else with_child j y rest

-- With the empty path, the data of the tree itself
put_node : Node → Text → Text → Node
unfolding put_child set_own
put_node t k v = if is_empty k then set_own v t else put_child t k v

own_of : Option Node → Option Text
unfolding own
own_of none = none
own_of (some t) = some (own t)

unfoldable pub nodes : PropertyTree
unfolding own put_node put_behind child_of items_of own_of
nodes = record {
  Tree = Node;
  empty = stem [];
  get = λ t k. own_of (child_of t k);
  put = put_node;
  value = own;
  items = items_of;
  get_child = child_of;
  add_child = put_behind;
  push_back = put_behind;
  print_json = own;
  parse_json = λ text. none;
}

own-set_own : (v : Text) (t : Node) → own (set_own v t) ≡ v
unfolding own set_own
own-set_own v (stem w) = refl
own-set_own v (with_child k x t) = own-set_own v t

items_of-put_behind :
    (t : Node) (k : Text) (x : Node) → items_of (put_behind t k x) ≡ items_of t ++ (k, x) ∷ []
unfolding items_of put_behind
items_of-put_behind (stem v) k x = refl
items_of-put_behind (with_child j y t) k x = ap (λ xs. (j, y) ∷ xs) (items_of-put_behind t k x)

-- A key is not the empty path.
put_node-key : (t : Node) (k v : Text) → is_key k ≡ true → put_node t k v ≡ put_child t k v
unfolding put_node is_key
put_node-key t [] v h = cc
put_node-key t (c ∷ k) v h = refl

own_of-put_child : (t : Node) (k v : Text) → own_of (child_of (put_child t k v) k) ≡ some v
unfolding own_of child_of put_child own
own_of-put_child (stem w) k v = rw (text_eq_refl k) refl
own_of-put_child (with_child j y t) k v = elim (Bool-cases (text_eq j k)) [
  | inl e ↦ rw (e, e) (ap some (own-set_own v y))
  | inr e ↦ rw (e, e) (own_of-put_child t k v)
]

child_of-put_child :
    (t : Node) (j k v : Text) → text_eq k j ≡ false → child_of (put_child t k v) j ≡ child_of t j
unfolding child_of put_child
child_of-put_child (stem w) j k v ne = rw ne refl
child_of-put_child (with_child i y t) j k v ne =
    grind (arith, text_eq_iff i k, text_eq_iff i j, text_eq_iff k j, child_of-put_child t j k v ne)

child_of-put_behind :
    (t : Node) (k : Text) (x : Node) → child_of t k ≡ none → child_of (put_behind t k x) k ≡ some x
unfolding child_of put_behind
child_of-put_behind (stem v) k x h = rw (text_eq_refl k) refl
child_of-put_behind (with_child j y t) k x h = ground (arith, child_of-put_behind t k x)

child_of-put_behind_ne :
    (t : Node) (j k : Text) (x : Node)
    → text_eq k j ≡ false
    → child_of (put_behind t k x) j ≡ child_of t j
unfolding child_of put_behind
child_of-put_behind_ne (stem v) j k x ne = rw ne refl
child_of-put_behind_ne (with_child i y t) j k x ne = rw (child_of-put_behind_ne t j k x ne) refl

value_at-own_of : (o : Option nodes.Tree) → value_at nodes o ≡ unfold nodes in own_of o
unfolding own_of nodes
value_at-own_of none = refl
value_at-own_of (some t) = refl

pub nodes-IsBuildable : IsBuildable nodes
unfolding nodes put_node items_of child_of
nodes-IsBuildable = record {
  items_empty = refl;
  child_empty = λ k h. refl;
  items-push_back = items_of-put_behind;
  value-put_here = λ t v. own-set_own v t;
  value-put_self = λ t k v h.
      value_at-own_of _
      ∙ ap (λ n. own_of (child_of n k)) (put_node-key t k v h)
      ∙ own_of-put_child t k v;
  child-put_ne = λ t j k v h h' ne.
      ap (λ n. child_of n j) (put_node-key t k v h') ∙ child_of-put_child t j k v ne;
  child-add_child_self = λ t k x h missing. child_of-put_behind t k x missing;
  child-add_child_ne = λ t j k x h h' ne. child_of-put_behind_ne t j k x ne;
}
