-- ===== src/Config/Store.antt =====
-- config.{h,cpp}, class Config: a property tree behind a mutex, written to its file at each change.
pub mod Access
use iexapitest.Base.{
  Bool, Exception, Exec, List, Option, Result, Text, [], codes, err, false, foreign, gets, halt,
  if◌then◌else◌, is_empty, map, none, ok, pure, runtime_error, self_deadlock, some, text_eq, throw,
  true, try_catch, ◌++◌, ◌>>=◌, ◌>>◌, ◌∷◌,
}
use iexapitest.Filesystem.{Created, create_folder, done, gave_up}
use iexapitest.Filesystem.Syscalls.{Posix}
use iexapitest.Config.PropertyTree.{JsonFiles, Lexical, PropertyTree, has_item}

-- The object with the file system. `locked` is the state of `mtx`, which this thread alone takes.
pub record Config (T : PropertyTree) (P : Posix) : Type 0 where
  pub root : T.Tree
  pub locked : Bool
  pub config_path : Text
  pub config_folder : Text
  pub files : P.State

-- `lock_guard<mutex> locker(mtx)` around the rest of a scope. A std::mutex is not recursive.
abbrev pub with_lock :
    {T : PropertyTree} {P : Posix} {A : Type 0} → Exec (Config T P) A → Exec (Config T P) A
with_lock m s =
    if s.locked
    then (halt self_deadlock, s)
    else let (r, s') = m (record s { locked = true }) in (r, record s' { locked = false })

-- The exceptions of `get<string>(key)` and `get_child(key)` at a path that is not there, and of
-- `lexical_cast`.
abbrev pub bad_path : Text → Exception
bad_path key = foreign (codes "No such node (" ++ (key ++ codes ")"))

abbrev pub bad_cast : Exception
bad_cast = foreign (codes "bad lexical cast: source type value could not be interpreted as target")

-- `catch(const ptree_bad_path &)`
abbrev is_bad_path : Text → Exception → Bool
is_bad_path key (foreign m) = text_eq m (codes "No such node (" ++ (key ++ codes ")"))
is_bad_path key _ = false

abbrev pub value_or : Option Text → Text → Text
value_or none d = d
value_or (some v) d = v

abbrev pub write_error : Exception
write_error = runtime_error (codes "Can't write json file : ")

module _ {T : PropertyTree} {P : Posix} (J : JsonFiles T P) where
  -- `pt::write_json(GetConfigPath(), root)`, with its handler
  unfoldable pub save : Exec (Config T P) (Unit {0})
  save s =
      let (is_written, files) = J.write_file s.config_path s.root s.files in
      (if is_written then ok tt else err write_error, record s { files = files })

  put_value : Text → Text → Exec (Config T P) (Unit {0})
  put_value key value s = (ok tt, record s { root = T.put s.root key value })

  unfoldable pub write_string : Text → Text → Exec (Config T P) (Unit {0})
  unfolding save put_value
  write_string key value = with_lock (put_value key value >> save)

  -- `root.get<string>(key, defValue)` gives the default where the path is missing, and throws nothing.
  unfoldable pub get_string : Text → Text → Exec (Config T P) Text
  unfolding write_string
  get_string key def = with_lock (
      try_catch (gets (λ s. value_or (T.get s.root key) def)) (is_bad_path key)
        (λ e. write_string key def >> pure def))

  cast_or_throw : {A : Type 0} → Option A → Exec (Config T P) A
  cast_or_throw none = throw bad_cast
  cast_or_throw (some a) = pure a

  -- `Get<T>`, and `GetInt` at `int`
  unfoldable pub get_as : {A : Type 0} → Lexical A → Text → A → Exec (Config T P) A
  unfolding get_string cast_or_throw
  get_as L key def = get_string key (L.show def) >>= λ text. cast_or_throw (L.read text)

  -- `Write<T>` of one value, and `WriteInt` at `int`
  unfoldable pub write_as : {A : Type 0} → Lexical A → Text → A → Exec (Config T P) (Unit {0})
  unfolding write_string
  write_as L key value = write_string key (L.show value)

  -- The child that holds an array.
  unfoldable pub array_of : T.Tree → List Text → T.Tree
  array_of child [] = child
  array_of child (value ∷ values) = array_of (T.push_back child [] (T.put T.empty [] value)) values

  -- The tree after `Write<T>` of a vector
  unfoldable pub with_array : Text → List Text → T.Tree → T.Tree
  unfolding array_of
  with_array key values root =
      let child = array_of T.empty values in
      if has_item T (T.items root) key then root else T.add_child root key child

  unfoldable pub add_array : Text → List Text → Exec (Config T P) (Unit {0})
  add_array key values s = (ok tt, record s { root = with_array key values s.root })

  -- `Write<T>` of a vector
  unfoldable pub write_array : Text → List Text → Exec (Config T P) (Unit {0})
  unfolding save add_array
  write_array key values = with_lock (add_array key values >> save)

  unfoldable pub item_values : List (Text × T.Tree) → List Text
  item_values [] = []
  item_values ((name, t) ∷ items) = T.value t ∷ item_values items

  -- The handler of `GetArray` calls `Write` with the mutex still held.
  array_or : Text → List Text → Option T.Tree → Exec (Config T P) (List Text)
  unfolding item_values write_array
  array_or key def none = write_array key def >> pure def
  array_or key def (some child) =
      let res = item_values (T.items child) in pure (if is_empty res then def else res)

  unfoldable pub get_array : Text → List Text → Exec (Config T P) (List Text)
  unfolding array_or
  get_array key def = with_lock (gets (λ s. T.get_child s.root key) >>= array_or key def)

  unfoldable pub get_root_objects : Config T P → List Text
  get_root_objects s = map (λ item. item.0) (T.items s.root)

  load_file : Text → P.State → Result T.Tree
  load_file path files =
      if P.exists files path
      then elim (J.read_file path files) [
        | none ↦ err (runtime_error (codes "Can't parse config file : " ++ path))
        | some root ↦ ok root
      ]
      else ok T.empty

  -- The file system behind `CreateFolder`, whichever way it ended.
  made_folder : P.State → Option (Created P.State) → P.State
  made_folder s none = s
  made_folder s (some (done s')) = s'
  made_folder s (some (gave_up p s')) = s'

  with_root : Text → Text → Result T.Tree → P.State → Result (Config T P) × P.State
  with_root folder path (err e) files = (err e, files)
  with_root folder path (halt f) files = (halt f, files)
  with_root folder path (ok root) files = (
    ok (record {
      root = root;
      locked = false;
      config_path = path;
      config_folder = folder;
      files = files;
    }),
    files,
  )

  -- The constructor with `Init`
  unfoldable pub construct_config : Text → Text → Exec P.State (Config T P)
  unfolding load_file made_folder with_root
  construct_config folder name files =
      let path = folder ++ (codes "/" ++ name) in
      let files' = made_folder files (create_folder P folder files) in
      with_root folder path (load_file path files') files'
