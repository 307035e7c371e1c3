-- ===== src/Config/Daemon.antt =====
-- config_daemon.{h,cpp}: the daemon's configuration. Its Config is taken as the state.
pub mod Filling
pub mod Steps
pub mod Startup
use iexapitest.Base.{Exec, List, Result, Text, [], codes, lift, pos, ℕ, ℤ, ◌==◌, ◌>>=◌, ◌>>◌, ◌∷◌}
use iexapitest.Filesystem.Syscalls.{Posix}
use iexapitest.Config.Keys.{Key, KeyType, Section, key_path}
use iexapitest.Config.PropertyTree.{JsonFiles, Lexical, PropertyTree}
use iexapitest.Config.Store.{
  Config, get_array, get_as, get_string, write_array, write_as, write_string,
}

pub data EKeys : Type 0 where
  log_path db_path interface port : EKeys
  iex_url iex_tocken iex_update_price_second iex_update_symbols : EKeys

abbrev pub log_file : Text
log_file = codes "./log.txt"

abbrev pub db_file : Text
db_file = codes "./peakwork.db"

abbrev pub grpc_interface : Text
grpc_interface = codes "0.0.0.0"

abbrev pub grpc_port : Text
grpc_port = codes "50050"

abbrev pub update_time : ℤ
update_time = pos 3

abbrev pub default_url : Text
default_url = codes "https://sandbox.iexapis.com"

abbrev pub default_token : Text
default_token = codes "Tpk_cf32bcdd9dac4ee586469a167121bda2"

abbrev pub update_symbols : List Text
update_symbols = codes "aapl" ∷ codes "fb" ∷ []

abbrev pub section_daemon : Section
section_daemon = record { name = codes "daemon" }

abbrev pub section_grpc : Section
section_grpc = record { name = codes "grpc_server" }

abbrev pub section_iex : Section
section_iex = record { name = codes "iex_api" }

abbrev pub number_of : EKeys → ℕ
number_of log_path = 0
number_of db_path = 1
number_of interface = 2
number_of port = 3
number_of iex_url = 4
number_of iex_tocken = 5
number_of iex_update_price_second = 6
number_of iex_update_symbols = 7

abbrev pub e_keys : KeyType EKeys
e_keys = record { key_eq = λ a b. number_of a == number_of b; to_int = number_of }

abbrev key_of : Section → EKeys → Text → Key EKeys
key_of s k n = record { section = s; key = k; key_name = n }

abbrev pub keys : List (Key EKeys)
keys =
    key_of section_daemon log_path (codes "log_path")
    ∷ key_of section_daemon db_path (codes "db_path")
    ∷ key_of section_grpc interface (codes "interface")
    ∷ key_of section_grpc port (codes "port")
    ∷ key_of section_iex iex_url (codes "url")
    ∷ key_of section_iex iex_tocken (codes "tocken")
    ∷ key_of section_iex iex_update_price_second (codes "update_price_timeout_sec")
    ∷ key_of section_iex iex_update_symbols (codes "update_symbols")
    ∷ []

-- `keys(section, key)`
unfoldable pub path_of : Section → EKeys → Result Text
unfolding key_path
path_of = key_path e_keys keys

module _ {T : PropertyTree} {P : Posix} (J : JsonFiles T P) (L : Lexical ℤ) where
  string_at : Section → EKeys → Text → Exec (Config T P) Text
  string_at section key def = lift (path_of section key) >>= λ path. get_string J path def

  unfoldable pub get_db_path : Exec (Config T P) Text
  unfolding string_at
  get_db_path = string_at section_daemon db_path db_file

  unfoldable pub get_log_path : Exec (Config T P) Text
  unfolding string_at
  get_log_path = string_at section_daemon log_path log_file

  unfoldable pub get_grpc_server_interface : Exec (Config T P) Text
  unfolding string_at
  get_grpc_server_interface = string_at section_grpc interface grpc_interface

  unfoldable pub get_grpc_server_port : Exec (Config T P) Text
  unfolding string_at
  get_grpc_server_port = string_at section_grpc port grpc_port

  unfoldable pub get_iex_url : Exec (Config T P) Text
  unfolding string_at
  get_iex_url = string_at section_iex iex_url default_url

  unfoldable pub get_iex_tocken : Exec (Config T P) Text
  unfolding string_at
  get_iex_tocken = string_at section_iex iex_tocken default_token

  unfoldable pub get_iex_update_timeout : Exec (Config T P) ℤ
  get_iex_update_timeout =
      lift (path_of section_iex iex_update_price_second) >>= λ path. get_as J L path update_time

  -- The key is that of the timeout, as in the source.
  unfoldable pub get_iex_update_symbols : Exec (Config T P) (List Text)
  get_iex_update_symbols =
      lift (path_of section_iex iex_update_price_second) >>= λ path. get_array J path update_symbols

  -- `cfg->WriteString(keys(section, key), value())`
  write_back : Section → EKeys → Exec (Config T P) Text → Exec (Config T P) (Unit {0})
  write_back section key value = do
    path ← lift (path_of section key)
    text ← value
    write_string J path text

  -- `cfg->WriteInt(keys(sectionIEX, eKeys::IEX_UPDATE_PRICE_SECOND), GetIEXUpdateTimeout())`
  write_timeout : Exec (Config T P) (Unit {0})
  write_timeout = do
    path ← lift (path_of section_iex iex_update_price_second)
    timeout ← get_iex_update_timeout
    write_as J L path timeout

  -- `cfg->Write(keys(sectionIEX, eKeys::IEX_UPDATE_SYMBOLS), GetIEXUpdateSymbols())`
  write_symbols : Exec (Config T P) (Unit {0})
  write_symbols = do
    path ← lift (path_of section_iex iex_update_symbols)
    symbols ← get_iex_update_symbols
    write_array J path symbols

  -- `Init`, which the constructor calls
  unfoldable pub init : Exec (Config T P) (Unit {0})
  unfolding write_back write_timeout write_symbols
  init = do
    write_back section_daemon log_path get_log_path
    write_back section_daemon db_path get_db_path
    write_back section_grpc interface get_grpc_server_interface
    write_back section_grpc port get_grpc_server_port
    write_back section_iex iex_url get_iex_url
    write_back section_iex iex_tocken get_iex_tocken
    write_timeout
    write_symbols
