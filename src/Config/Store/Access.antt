-- ===== src/Config/Store/Access.antt =====
-- What the accessors of Config return and write, on every branch.
use iexapitest.Base.{
  List, Option-cases, Result, Text, err, false, halt, if◌then◌else◌, inl, inr, is_empty, none, ok,
  refl, self_deadlock, some, sym, text_eq, true, ◌≡◌,
}
use iexapitest.Filesystem.Syscalls.{Posix}
use iexapitest.Config.PropertyTree.{IsLawfulTree, JsonFiles, PropertyTree, has_item, is_plain, top}
use iexapitest.Config.Store.{
  Config, array_of, get_array, get_string, item_values, save, value_or, with_array, write_error,
  write_string,
}

module _ {T : PropertyTree} {P : Posix} (J : JsonFiles T P) where
  -- Reading a string with the mutex free returns what is at the path, or else the default. The object
  -- is unchanged: a default is not written.
  pub get_string_lem :
      (key def : Text) (s : Config T P)
      → s.locked ≡ false
      → get_string J key def s ≡ (ok (value_or (T.get s.root key) def), s)
  unfolding get_string
  get_string_lem key def s free =
      simp free (λ i. (ok (value_or (T.get s.root key) def), record s { locked = sym free i }))

  -- With the mutex free an array is read from the children of the path. Without children it is the
  -- default. Without the path the thread waits for the mutex that it holds.
  pub get_array_lem :
      (key : Text) (def : List Text) (s : Config T P)
      → s.locked ≡ false
      → (get_array J key def s).0 ≡ elim (T.get_child s.root key) [
        | none ↦ halt self_deadlock
        | some child ↦
            let res = item_values J (T.items child) in ok (if is_empty res then def else res)
      ]
  unfolding get_array
  get_array_lem key def s free = elim (Option-cases (T.get_child s.root key)) [
    | inl e ↦ simp (free, e)
    | inr (child, e) ↦ simp (free, e)
  ]

  pub get_array-some :
      (key : Text) (def : List Text) (s : Config T P) (child : T.Tree)
      → s.locked ≡ false
      → T.get_child s.root key ≡ some child
      → get_array J key def s
        ≡ (ok (let res = item_values J (T.items child) in if is_empty res then def else res), s)
  unfolding get_array
  get_array-some key def s child free e =
      simp (free, e)
        (λ i. (
          ok (let res = item_values J (T.items child) in if is_empty res then def else res),
          record s { locked = sym free i },
        ))

  -- What a change to this tree leaves, by its result.
  abbrev pub Saved : Config T P → T.Tree → Result (Unit {0}) × Config T P → Type 0
  Saved s root (r, s') =
      (s'.root ≡ root)
      × (s'.locked ≡ false)
      × (s'.config_path ≡ s.config_path)
      × (let (is_written, files) = J.write_file s.config_path root s.files in
          (r ≡ (if is_written then ok tt else err write_error)) × (s'.files ≡ files))

  -- Writing a string with the mutex free puts it into the tree and frees the mutex again. The call
  -- returns where the whole tree was written to the Config's file, and throws the error of writing
  -- where it was not; the files are what the writing left, either way, and what was put into the tree
  -- stays.
  pub write_string-Saved :
      (key value : Text) (s : Config T P)
      → s.locked ≡ false
      → Saved s (T.put s.root key value) (write_string J key value s)
  unfolding write_string save
  write_string-Saved key value s free = simp free (refl, refl, refl, (refl, refl))

  -- Writing an array at a dotted key is never found done: `find` looks for the whole key among the
  -- root's own children, so a second write adds a second child. The tree keeps its laws, no element
  -- of the key is empty, the key is not its own first element, and the root has no child of that name.
  pub with_array_twice :
      IsLawfulTree T
      → (key : Text) (first second : List Text) (t : T.Tree) → is_plain key ≡ true
      → text_eq (top key) key ≡ false
      → has_item T (T.items t) key ≡ false
      → with_array J key second (with_array J key first t)
        ≡ T.add_child (T.add_child t key (array_of J T.empty first)) key (array_of J T.empty second)
  unfolding with_array
  with_array_twice law key first second t plain dotted fresh =
      rw (fresh, law.items-add_child t key (array_of J T.empty first) key plain, fresh, dotted) refl
