-- ===== src/Config/Manager.antt =====
-- config.{h,cpp}, class ConfigManager: one Config for each path. A shared pointer to a Config is the
-- path under which the manager holds it, since no entry is ever taken out.
pub mod Sharing
use iexapitest.Base.{
  Exec, Result, Text, TextMap, codes, emplace, err, halt, lookup, none, ok, some, ◌++◌,
}
use iexapitest.Filesystem.Syscalls.{Posix}
use iexapitest.Config.PropertyTree.{JsonFiles, PropertyTree}
use iexapitest.Config.Store.{Config, construct_config}

-- The members of the manager, and the file system.
pub record ConfigManager (T : PropertyTree) (P : Posix) : Type 0 where
  pub configs : TextMap (Config T P)
  pub files : P.State

abbrev pub def_folder : Text
def_folder = codes "."

module _ {T : PropertyTree} {P : Posix} (J : JsonFiles T P) where
  inserted :
      Text → TextMap (Config T P) → Result (Config T P) × P.State → Result Text × ConfigManager T P
  inserted path configs (err e, files) = (err e, record { configs = configs; files = files })
  inserted path configs (halt f, files) = (halt f, record { configs = configs; files = files })
  inserted path configs (ok cfg, files) =
      (ok path, record { configs = emplace path cfg configs; files = files })

  -- `GetConfig(folder, name)`. The manager's own mutex is taken once and by no callee.
  unfoldable pub get_config : Text → Text → Exec (ConfigManager T P) Text
  unfolding inserted
  get_config folder name m =
      let path = folder ++ (codes "/" ++ name) in
      elim (lookup path m.configs) [
        | some cfg ↦ (ok path, m)
        | none ↦ inserted path m.configs (construct_config J folder name m.files)
      ]

  -- `GetConfig(name)`
  unfoldable pub get_default_config : Text → Exec (ConfigManager T P) Text
  unfolding get_config
  get_default_config name = get_config def_folder name
