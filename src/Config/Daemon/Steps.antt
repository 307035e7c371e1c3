-- ===== src/Config/Daemon/Steps.antt =====
-- The steps of start-up, where the files can be written.
use iexapitest.Base.{
  Exec, List, Option-cases, Text, TextMap, [], ap, codes, false, if◌then◌else◌, inr, is_empty, none,
  ok, refl, some, sym, text_eq, true, ℤ, ◌>>◌, ◌∙◌, ◌∷◌, ◌≡◌,
}
use iexapitest.Filesystem.Syscalls.{Posix}
use iexapitest.Config.Keys.{Section, key_path, section_eq, section_key}
use iexapitest.Config.PropertyTree.{
  IsLawfulTree, JsonFiles, Lexical, PropertyTree, are_filled, is_above, is_plain, items_at,
  segments, value_at,
}
use iexapitest.Config.Store.{
  Config, add_array, get_as, item_values, save, value_or, with_array, write_array, write_as,
  write_string,
}
use iexapitest.Config.Daemon.Filling.{are_all_apart, fill, get-fill_ne, is_apart_from}
use iexapitest.Config.Daemon.{
  EKeys, db_file, db_path, default_token, default_url, get_db_path, get_grpc_server_interface,
  get_grpc_server_port, get_iex_tocken, get_iex_update_symbols, get_iex_update_timeout, get_iex_url,
  get_log_path, grpc_interface, grpc_port, iex_tocken, iex_url, init, interface, log_file, log_path,
  path_of, port, section_daemon, section_grpc, section_iex, string_at, update_symbols, update_time,
  write_back, write_symbols, write_timeout,
}
use iexapitest.Config.Store.Access.{get_array-some, get_string_lem}
use iexapitest.Base.{inl}

abbrev pub timeout_path : Text
timeout_path = codes "iex_api.update_price_timeout_sec"

abbrev pub symbols_path : Text
symbols_path = codes "iex_api.update_symbols"

-- A text that is written back: its key, the path of the key, and its default.
abbrev pub Setting : Type 0
Setting = Section × (EKeys × (Text × Text))

abbrev pub paths_of : List Setting → TextMap Text
paths_of [] = []
paths_of ((section, (key, entry)) ∷ ds) = entry ∷ paths_of ds

abbrev pub Resolves : List Setting → Type 0
Resolves [] = Unit {0}
Resolves ((section, (key, (path, def))) ∷ ds) = (path_of section key ≡ ok path) × Resolves ds

abbrev pub strings : List Setting
strings =
    (section_daemon, (log_path, (codes "daemon.log_path", log_file)))
    ∷ (section_daemon, (db_path, (codes "daemon.db_path", db_file)))
    ∷ (section_grpc, (interface, (codes "grpc_server.interface", grpc_interface)))
    ∷ (section_grpc, (port, (codes "grpc_server.port", grpc_port)))
    ∷ (section_iex, (iex_url, (codes "iex_api.url", default_url)))
    ∷ (section_iex, (iex_tocken, (codes "iex_api.tocken", default_token)))
    ∷ []

abbrev pub defaults : TextMap Text
defaults = paths_of strings

pub defaults-apart : are_all_apart defaults ≡ true
unfolding are_filled are_all_apart is_above segments is_apart_from text_eq
defaults-apart = refl

pub timeout_path-is_plain : is_plain timeout_path ≡ true
unfolding are_filled segments
timeout_path-is_plain = refl

pub timeout-apart : is_apart_from timeout_path defaults ≡ true
unfolding are_filled is_above segments is_apart_from text_eq
timeout-apart = refl

pub symbols-apart : is_apart_from symbols_path defaults ≡ true
unfolding are_filled is_above segments is_apart_from text_eq
symbols-apart = refl

module _ {T : PropertyTree} {P : Posix} (J : JsonFiles T P) (L : Lexical ℤ)
    (Writable : T.Tree → Type 0)
    (write_file_lem : (path : Text) (t : T.Tree) (files : P.State)
      → Writable t
      → (J.write_file path t files).0 ≡ true) where
  -- The action returns with this tree and the mutex free.
  abbrev pub Leaves : Config T P → Exec (Config T P) (Unit {0}) → T.Tree → Type 0
  Leaves s m t =
      (files : P.State) × (m s ≡ (ok tt, record s { root = t; locked = false; files = files }))

  Leaves-and_then :
      {s : Config T P} (m n : Exec (Config T P) (Unit {0})) {t u : T.Tree}
      → Leaves s m t
      → ((files : P.State) → Leaves (record s { root = t; locked = false; files = files }) n u)
      → Leaves s (m >> n) u
  Leaves-and_then m n (files, e) next = let rest = next files in (rest.0, rw (e, rest.1))

  -- The symbols that are read from a tree.
  unfoldable pub symbols_in : T.Tree → List Text
  symbols_in t =
      let res = item_values J (items_at T (T.get_child t timeout_path)) in
      if is_empty res then update_symbols else res

  write_string-Leaves :
      (key value : Text) (s : Config T P)
      → s.locked ≡ false
      → Writable (T.put s.root key value)
      → Leaves s (write_string J key value) (T.put s.root key value)
  unfolding write_string save
  write_string-Leaves key value s free w = (
    (J.write_file s.config_path (T.put s.root key value) s.files).1,
    simp free (rw (save, write_file_lem s.config_path (T.put s.root key value) s.files w) refl),
  )

  -- One write of `Init`.
  write_back-Leaves :
      (section : Section) (key : EKeys) (path def : Text) (s : Config T P)
      → path_of section key ≡ ok path
      → s.locked ≡ false
      → Writable (T.put s.root path (value_or (T.get s.root path) def))
      → Leaves s
          (write_back J L section key (string_at J L section key def))
          (T.put s.root path (value_or (T.get s.root path) def))
  unfolding write_back string_at
  write_back-Leaves section key path def s e free w =
      let rest = write_string-Leaves path (value_or (T.get s.root path) def) s free w in
      (rest.0, rw (e, get_string_lem J path def s free, rest.1))

  write_array-Leaves :
      (key : Text) (values : List Text) (s : Config T P)
      → s.locked ≡ false
      → Writable (with_array J key values s.root)
      → Leaves s (write_array J key values) (with_array J key values s.root)
  unfolding write_array save add_array
  write_array-Leaves key values s free w = (
    (J.write_file s.config_path (with_array J key values s.root) s.files).1,
    simp free
        (rw (save, write_file_lem s.config_path (with_array J key values s.root) s.files w) refl),
  )

  -- The trees that filling writes are writable.
  abbrev pub Fills : TextMap Text → T.Tree → Type 0
  Fills [] t = Unit {0}
  Fills ((p, d) ∷ ds) t = let u = T.put t p (value_or (T.get t p) d) in Writable u × Fills ds u

  -- The writes of texts in `Init`, in front of `m`.
  write_all : List Setting → Exec (Config T P) (Unit {0}) → Exec (Config T P) (Unit {0})
  write_all [] m = m
  write_all ((section, (key, (path, def))) ∷ ds) m =
      write_back J L section key (string_at J L section key def) >> write_all ds m

  module _ (law : IsLawfulTree T) where
    -- A path that was put is there.
    get_child-put :
        (t : T.Tree) (k v : Text)
        → is_plain k ≡ true
        → (child : T.Tree) × (T.get_child (T.put t k v) k ≡ some child)
    get_child-put t k v plain =
        let there : value_at T (T.get_child (T.put t k v) k) ≡ some v =
          sym (law.get_lem (T.put t k v) k) ∙ law.get-put_self t k v plain in
        elim (Option-cases (T.get_child (T.put t k v) k)) [
          | inl e ↦ let impossible : none ≡ some v = sym (ap (value_at T) e) ∙ there in cc
          | inr found ↦ found
        ]

    -- The symbols are read from below the timeout.
    pub get_iex_update_symbols-put :
        (s : Config T P) (t : T.Tree) (v : Text)
        → s.locked ≡ false
        → T.get_child s.root timeout_path ≡ T.get_child (T.put t timeout_path v) timeout_path
        → get_iex_update_symbols {T = T} J L s ≡ (ok (symbols_in t), s)
    unfolding get_iex_update_symbols path_of key_path section_eq section_key text_eq symbols_in
        item_values
    get_iex_update_symbols-put s t v free e =
        let (child, there) = get_child-put t timeout_path v timeout_path-is_plain in
        get_array-some J timeout_path update_symbols s child free (e ∙ there)
        ∙ ap
            (λ items. (
              ok (let res = item_values J items in if is_empty res then update_symbols else res),
              s,
            ))
            (sym (ap (items_at T) there)
              ∙ law.items-put_self t timeout_path v timeout_path-is_plain)

    -- The tree after `Init`, where the timeout is read as `n`.
    unfoldable pub root_after : ℤ → T.Tree → T.Tree
    root_after n t = with_array J symbols_path (symbols_in t) (T.put t timeout_path (L.show n))

    write_all-Leaves :
        (ds : List Setting) (s : Config T P) (m : Exec (Config T P) (Unit {0})) {u : T.Tree}
        → Resolves ds
        → s.locked ≡ false
        → Fills (paths_of ds) s.root
        → ((s' : Config T P)
            → s'.root ≡ fill T (paths_of ds) s.root
            → s'.locked ≡ false
            → Leaves s' m u)
        → Leaves s (write_all ds m) u
    unfolding write_all fill
    write_all-Leaves [] s m held free w next = next s refl free
    write_all-Leaves ((section, (key, (path, def))) ∷ ds) s m (e, held) free (w, ws) next =
        Leaves-and_then (write_back J L section key (string_at J L section key def))
          (write_all ds m) (write_back-Leaves section key path def s e free w)
          (λ files.
            write_all-Leaves ds
              (record s {
                root = T.put s.root path (value_or (T.get s.root path) def);
                locked = false;
                files = files;
              })
              m held refl ws next)

    write_timeout-Leaves :
        (s : Config T P) (n : ℤ)
        → s.locked ≡ false
        → L.read (value_or (T.get s.root timeout_path) (L.show update_time)) ≡ some n
        → Writable (T.put s.root timeout_path (L.show n))
        → Leaves s (write_timeout J L) (T.put s.root timeout_path (L.show n))
    unfolding write_timeout get_iex_update_timeout get_as write_as path_of key_path section_eq
        section_key text_eq
    write_timeout-Leaves s n free readable w =
        let rest = write_string-Leaves timeout_path (L.show n) s free w in
        (rest.0, rw (get_string_lem J timeout_path (L.show update_time) s free, readable) rest.1)

    write_symbols-Leaves :
        (s : Config T P) (t : T.Tree) (v : Text)
        → s.locked ≡ false
        → s.root ≡ T.put t timeout_path v
        → Writable (with_array J symbols_path (symbols_in t) s.root)
        → Leaves s (write_symbols J L) (with_array J symbols_path (symbols_in t) s.root)
    unfolding write_symbols path_of key_path section_eq section_key text_eq
    write_symbols-Leaves s t v free e w =
        let rest = write_array-Leaves symbols_path (symbols_in t) s free w in
        (
          rest.0,
          rw (
            get_iex_update_symbols-put s t v free (ap (λ r. T.get_child r timeout_path) e),
            rest.1,
          ),
        )

    -- The trees that start-up writes are writable.
    abbrev pub StartsUp : ℤ → T.Tree → Type 0
    StartsUp n t =
        let filled = fill T defaults t in
        Fills defaults t
        × Writable (T.put filled timeout_path (L.show n))
        × Writable (root_after n filled)

    pub init-Leaves :
        (s : Config T P) (n : ℤ)
        → s.locked ≡ false
        → L.read (value_or (T.get s.root timeout_path) (L.show update_time)) ≡ some n
        → StartsUp n s.root
        → Leaves s (init J L) (root_after n (fill T defaults s.root))
    unfolding init path_of key_path section_eq section_key text_eq get_log_path get_db_path
        get_grpc_server_interface get_grpc_server_port get_iex_url get_iex_tocken string_at
        root_after write_all
    init-Leaves s n free readable (ws, w, w') =
        write_all-Leaves strings s (write_timeout J L >> write_symbols J L)
          {u = root_after n (fill T defaults s.root)}
          (refl, (refl, (refl, (refl, (refl, (refl, tt)))))) free ws
          (λ s' at free'. rw (sym at) (
            Leaves-and_then (write_timeout J L) (write_symbols J L)
              (write_timeout-Leaves s' n free'
                (rw (at, get-fill_ne T law defaults s.root timeout_path timeout-apart) readable)
                (rw at w))
              (λ f.
                write_symbols-Leaves
                  (record s' {
                    root = T.put s'.root timeout_path (L.show n);
                    locked = false;
                    files = f;
                  })
                  s'.root (L.show n) refl refl (rw at w'))))
