-- ===== src/Rpc/Client.antt =====
-- rpc/iex/iex_client.cpp with common_data/company_info.h, and RPCService::GetHTTPCompanyInfo. The
-- state is the daemon's Config, which the addresses are made from.
pub mod Failures
pub mod Pages
pub mod Answers
use iexapitest.Base.{
  Exception, Exec, List, Result, Text, [], codes, err, foreign, if◌then◌else◌, is_empty, is_http,
  lift, none, ok, pure, some, try_catch, ℤ, ◌&&◌, ◌++◌, ◌>>=◌, ◌>>◌, ◌∷◌,
}
use iexapitest.Filesystem.Syscalls.{Posix}
use iexapitest.Http.Curl.{Curl}
use iexapitest.Http.Perform.{perform_get}
use iexapitest.Config.PropertyTree.{Integers, JsonFiles, Lexical, PropertyTree}
use iexapitest.Config.Store.{Config, bad_path}
use iexapitest.Config.Daemon.{get_iex_tocken, get_iex_url}

-- A float is of a type of its own.
pub record Price (Float : Type 0) : Type 0 where
  pub price : Float
  pub date_timestamp : ℤ
  pub date_string : Text

pub record CompanyInfo (Float : Type 0) : Type 0 where
  pub short_name : Text
  pub full_name : Text
  pub logo : Text
  pub price_list : List (Price Float)

-- `{}`
abbrev pub no_info : {Float : Type 0} → CompanyInfo Float
no_info = record { short_name = []; full_name = []; logo = []; price_list = [] }

-- What `get<T>(path)` throws where the text is no T, and what `read_json` throws.
abbrev pub bad_data : Exception
bad_data = foreign (codes "conversion of data to type failed")

abbrev pub json_parser_error : Exception
json_parser_error = foreign (codes "json parser error")

module _ {T : PropertyTree} {P : Posix} {Float : Type 0} (C : Curl) (J : JsonFiles T P)
    (L : Integers) (F : Lexical Float) where
  -- `get<string>(path)` without a default
  pub get_text : T.Tree → Text → Result Text
  get_text pt path = elim (T.get pt path) [ none ↦ err (bad_path path) | some v ↦ ok v ]

  cast_text : {A : Type 0} → Lexical A → Text → Result A
  cast_text K text = elim (K.read text) [ none ↦ err bad_data | some a ↦ ok a ]

  pub read_json : Text → Result T.Tree
  read_json text = elim (T.parse_json text) [ none ↦ err json_parser_error | some pt ↦ ok pt ]

  -- `HTTPTransaction::PerformGet(url)`
  get_page : Text → Exec (Config T P) Text
  get_page address = lift (perform_get C address)

  unfoldable pub create_url : Text → Text → Exec (Config T P) Text
  create_url company_symbol type = do
    base ← get_iex_url J L.int
    tocken ← get_iex_tocken J L.int
    pure (
        base
        ++ (codes "/stable/stock/"
            ++ (company_symbol ++ (codes "/" ++ (type ++ (codes "?token=" ++ tocken))))))

  unfoldable pub parse_company_info : Text → Exec (Config T P) (CompanyInfo Float)
  unfolding read_json get_text cast_text
  parse_company_info info = do
    pt ← lift (read_json info)
    full_name ← lift (get_text pt (codes "companyName"))
    short_name ← lift (get_text pt (codes "symbol"))
    latest_price ← lift (get_text pt (codes "latestPrice"))
    price ← lift (cast_text F latest_price)
    latest_update ← lift (get_text pt (codes "latestUpdate"))
    timestamp ← lift (cast_text L.int64 latest_update)
    pure (record {
      short_name = short_name;
      full_name = full_name;
      logo = [];
      price_list =
          record { price = price; date_timestamp = timestamp; date_string = latest_update } ∷ [];
    })

  logo_link : Text → Exec (Config T P) Text
  unfolding create_url get_page read_json get_text
  logo_link short_name = do
    address ← create_url short_name (codes "logo")
    page ← get_page address
    pt ← lift (read_json page)
    lift (get_text pt (codes "url"))

  unfoldable pub get_company_logo_link : Text → Exec (Config T P) Text
  unfolding logo_link
  get_company_logo_link short_name = try_catch (logo_link short_name) is_http (λ e. pure [])

  -- The body of the three overloads of `GetCompanyInfo`, which ask for different addresses.
  pub company_info : Text → Text → Exec (Config T P) (CompanyInfo Float)
  unfolding create_url get_page parse_company_info get_company_logo_link
  company_info short_name type = do
    address ← create_url short_name type
    page ← get_page address
    info ← parse_company_info page
    logo ← get_company_logo_link short_name
    pure (record info { logo = logo })

  pub or_no_info : Exec (Config T P) (CompanyInfo Float) → Exec (Config T P) (CompanyInfo Float)
  or_no_info m = try_catch m is_http (λ e. pure no_info)

  unfoldable pub get_company_info : Text → Exec (Config T P) (CompanyInfo Float)
  unfolding company_info or_no_info
  get_company_info short_name = or_no_info (company_info short_name (codes "quote"))

  unfoldable pub get_company_info_in : Text → Text → Exec (Config T P) (CompanyInfo Float)
  unfolding company_info or_no_info
  get_company_info_in short_name time_frame =
      or_no_info (company_info short_name (codes "chart/" ++ time_frame))

  unfoldable pub get_company_info_on : Text → Text → Text → Exec (Config T P) (CompanyInfo Float)
  unfolding company_info or_no_info
  get_company_info_on short_name time_frame date =
      or_no_info (company_info short_name (codes "chart/" ++ (time_frame ++ (codes "/" ++ date))))

  -- RPCService::GetHTTPCompanyInfo
  unfoldable pub get_http_company_info : Text → Text → Text → Exec (Config T P) (CompanyInfo Float)
  unfolding get_company_info get_company_info_in get_company_info_on
  get_http_company_info short_name time_frame date =
      if is_empty time_frame && is_empty date
      then get_company_info short_name
      else if is_empty date
      then get_company_info_in short_name time_frame
      else get_company_info_on short_name time_frame date
