-- ===== src/Config/Manager/Sharing.antt =====
-- Every caller shares the Config of a path.
use iexapitest.Base.{
  Exception, Option-cases, Result, Text, ap, codes, err, halt, inl, inr, lookup, lookup-emplace,
  none, ok, refl, some, sym, text_eq_refl, ◌++◌, ◌∙◌, ◌≡◌,
}
use iexapitest.Filesystem.Syscalls.{Posix}
use iexapitest.Config.PropertyTree.{JsonFiles, PropertyTree}
use iexapitest.Config.Store.{Config, construct_config}
use iexapitest.Config.Manager.{ConfigManager, get_config, inserted}

module _ {T : PropertyTree} {P : Posix} (J : JsonFiles T P) where
  -- What a call does to the map, by its result.
  abbrev Shares : Text → ConfigManager T P → Result Text × ConfigManager T P → Type 0
  Shares path m (r, m') =
      ((j : Text) (cfg : Config T P)
        → lookup j m.configs ≡ some cfg
        → lookup j m'.configs ≡ some cfg)
      × ((p : Text)
          → r ≡ ok p
          → (p ≡ path) × ((cfg : Config T P) × (lookup path m'.configs ≡ some cfg)))
      × ((e : Exception) → r ≡ err e → m'.configs ≡ m.configs)

  inserted-Shares :
      (path : Text) (m : ConfigManager T P) (x : Result (Config T P) × P.State)
      → lookup path m.configs ≡ none
      → Shares path m (inserted J path m.configs x)
  unfolding inserted
  inserted-Shares path m (err e, files) fresh = (λ j cfg h. h, λ p h. cc, λ e' h. refl)
  inserted-Shares path m (halt f, files) fresh = (λ j cfg h. h, λ p h. cc, λ e' h. refl)
  inserted-Shares path m (ok made, files) fresh = (
    λ j cfg h. rw (lookup-emplace j path made m.configs, h),
    λ p h. (cc, (made, rw (lookup-emplace path path made m.configs, fresh, text_eq_refl path))),
    λ e h. cc,
  )

  get_config-Shares :
      (folder name : Text) (m : ConfigManager T P)
      → Shares (folder ++ (codes "/" ++ name)) m (get_config J folder name m)
  unfolding get_config
  get_config-Shares folder name m =
      elim (Option-cases (lookup (folder ++ (codes "/" ++ name)) m.configs)) [
        | inl e ↦
            rw (get_config, e)
              (inserted-Shares (folder ++ (codes "/" ++ name)) m
                (construct_config J folder name m.files) e)
        | inr (held, e) ↦ rw (get_config, e) (λ j cfg h. h, λ p h. (cc, (held, e)), λ e' h. cc)
      ]

  get_config_again :
      (folder name : Text) (m : ConfigManager T P) (cfg : Config T P)
      → lookup (folder ++ (codes "/" ++ name)) m.configs ≡ some cfg
      → get_config J folder name m ≡ (ok (folder ++ (codes "/" ++ name)), m)
  unfolding get_config
  get_config_again folder name m cfg h = rw (get_config, h)

  -- What a call that finds no Config leaves, by what the constructor did.
  abbrev pub MakesOne :
      Text
      → ConfigManager T P
      → Result (Config T P) × P.State
      → Result Text × ConfigManager T P
      → Type 0
  MakesOne path m (ok cfg, files) (r, m') =
      (r ≡ ok path) × (lookup path m'.configs ≡ some cfg) × (m'.files ≡ files)
  MakesOne path m (err e, files) (r, m') =
      (r ≡ err e) × (m'.configs ≡ m.configs) × (m'.files ≡ files)
  MakesOne path m (halt f, files) (r, m') =
      (r ≡ halt f) × (m'.configs ≡ m.configs) × (m'.files ≡ files)

  inserted-MakesOne :
      (path : Text) (m : ConfigManager T P) (x : Result (Config T P) × P.State)
      → lookup path m.configs ≡ none
      → MakesOne path m x (inserted J path m.configs x)
  unfolding inserted
  inserted-MakesOne path m (ok cfg, files) fresh =
      (refl, rw (lookup-emplace path path cfg m.configs, fresh, text_eq_refl path), refl)
  inserted-MakesOne path m (err e, files) fresh = (refl, refl, refl)
  inserted-MakesOne path m (halt f, files) fresh = (refl, refl, refl)

  get_config-MakesOne :
      (folder name : Text) (m : ConfigManager T P)
      → lookup (folder ++ (codes "/" ++ name)) m.configs ≡ none
      → MakesOne
          (folder ++ (codes "/" ++ name))
          m
          (construct_config J folder name m.files)
          (get_config J folder name m)
  unfolding get_config
  get_config-MakesOne folder name m fresh =
      rw (get_config, fresh)
        (inserted-MakesOne (folder ++ (codes "/" ++ name)) m
          (construct_config J folder name m.files) fresh)

  -- What `GetConfig` does to the manager: no Config that was held is lost or made anew. Where the path
  -- of the folder and the name is held, it is returned and nothing changes. Where it is not, the
  -- constructor is called for the folder and the name: the Config that it makes is held at the path,
  -- which is returned, or it throws, the same exception leaves the call, and nothing is added; the
  -- files are as the constructor leaves them. A path that is returned is that of the folder and the
  -- name, and a later call for them returns it again and changes nothing.
  pub get_config_lem :
      (folder name : Text) (m : ConfigManager T P)
      → let path = folder ++ (codes "/" ++ name) in
        let (r, m') = get_config J folder name m in
        ((j : Text) (cfg : Config T P)
          → lookup j m.configs ≡ some cfg
          → lookup j m'.configs ≡ some cfg)
        × ((cfg : Config T P)
            → lookup path m.configs ≡ some cfg
            → get_config J folder name m ≡ (ok path, m))
        × (lookup path m.configs ≡ none
            → MakesOne path m (construct_config J folder name m.files) (get_config J folder name m))
        × ((p : Text) → r ≡ ok p → (p ≡ path) × (get_config J folder name m' ≡ (ok p, m')))
  get_config_lem folder name m =
      let (kept, held, failed) = get_config-Shares folder name m in
      (
        kept,
        get_config_again folder name m,
        get_config-MakesOne folder name m,
        λ p h.
            let (same, found) = held p h in
            (
              same,
              get_config_again folder name (get_config J folder name m).1 found.0 found.1
                  ∙ ap (λ q. (ok q, (get_config J folder name m).1)) (sym same),
            ),
      )
