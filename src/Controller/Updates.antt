-- ===== src/Controller/Updates.antt =====
-- src/controller.cpp: GetCompanyInfo, and UpdatePrices, which a thread runs.
pub mod Market
pub mod Worlds
pub mod Rounds
pub mod Loops
use iexapitest.Base.{
  Bool, Exec, List, Text, [], false, if◌then◌else◌, is_empty, pure, true, ℤ, ◌>>=◌, ◌>>◌, ◌∷◌,
}
use iexapitest.Filesystem.Syscalls.{Posix}
use iexapitest.Http.Curl.{Curl}
use iexapitest.Config.PropertyTree.{Integers, JsonFiles, Lexical, PropertyTree}
use iexapitest.Config.Store.{Config}
use iexapitest.Config.Daemon.{get_iex_update_symbols, get_iex_update_timeout}
use iexapitest.Rpc.Client.{CompanyInfo, Price, get_http_company_info}
use iexapitest.Db.Sqlite.{Sqlite}
use iexapitest.Db.Companies.{add_company, get_row_id}
use iexapitest.Db.Prices.{add_price}

module _ (T : PropertyTree) (P : Posix) (S : Sqlite) where
  -- `cfg` and `dbManager`
  pub record World : Type 0 where
    pub cfg : Config T P
    pub database : S.Database

module _ {T : PropertyTree} {P : Posix} {S : Sqlite} {A : Type 0} where
  unfoldable pub on_config : Exec (Config T P) A → Exec (World T P S) A
  on_config m w = let (r, c) = m w.cfg in (r, record w { cfg = c })

  unfoldable pub on_database : Exec S.Database A → Exec (World T P S) A
  on_database m w = let (r, d) = m w.database in (r, record w { database = d })

module _ {T : PropertyTree} {P : Posix} {Float : Type 0} (C : Curl) (J : JsonFiles T P)
    (L : Integers) (F : Lexical Float) where
  -- `GetCompanyInfo`
  unfoldable pub get_companies_info :
      List Text → Text → Text → Exec (Config T P) (List (CompanyInfo Float))
  get_companies_info [] time_frame date = pure []
  get_companies_info (company ∷ companies) time_frame date = do
    info ← get_http_company_info C J L F company time_frame date
    rest ← get_companies_info companies time_frame date
    pure (info ∷ rest)

-- A float is of a type of its own, and `widen` makes the double of it that SQLite keeps.
module _ {T : PropertyTree} {P : Posix} {Float : Type 0} (C : Curl) (J : JsonFiles T P)
    (L : Integers) (F : Lexical Float) (S : Sqlite) (widen : Float → S.Real) where
  -- The loop over `info.priceList`
  unfoldable pub add_prices : ℤ → List (Price Float) → Exec S.Database (Unit {0})
  add_prices row_id [] = pure tt
  add_prices row_id (price ∷ prices) =
      add_price S row_id (widen price.price) price.date_timestamp >> add_prices row_id prices

  -- The body of the loop over the symbols
  unfoldable pub update_symbol : Text → Exec (World T P S) (Unit {0})
  unfolding on_config on_database add_prices
  update_symbol symbol = do
    info ← on_config (get_http_company_info C J L F symbol [] [])
    on_database (add_company S info.short_name info.full_name info.logo)
    row_id ← on_database (get_row_id S info.short_name)
    on_database (add_prices row_id info.price_list)

  unfoldable pub update_all : List Text → Exec (World T P S) (Unit {0})
  unfolding update_symbol
  update_all [] = pure tt
  update_all (symbol ∷ symbols) = update_symbol symbol >> update_all symbols

  -- `while(!stopFlag)`, on what the reads of stopFlag have given so far: whether the loop was left.
  -- The wait behind each round is for no time and changes nothing.
  unfoldable pub update_loop : List Text → List Bool → Exec (World T P S) Bool
  unfolding update_all
  update_loop symbols [] = pure false
  update_loop symbols (stop_flag ∷ flags) =
      if stop_flag then pure true else update_all symbols >> update_loop symbols flags

  unfoldable pub update_prices : List Bool → Exec (World T P S) Bool
  unfolding on_config update_loop
  update_prices flags = do
    update_timeout ← on_config (get_iex_update_timeout J L.int)
    symbols ← on_config (get_iex_update_symbols J L.int)
    if is_empty symbols then pure true else update_loop symbols flags
