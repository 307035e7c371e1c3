-- ===== src/Examples/Controller.antt =====
-- The Controller on a service that answers with one quote, and with a failure for another symbol.
use iexapitest.Base.{
  Bool, List, Text, [], codes, err, false, find, halt, if◌then◌else◌, length, lookup,
  network_exception, none, ok, pos, refl, some, suc, terminated, text_eq, to_decimal, true,
  uncaught, ℕ, ℤ, ◌&&◌, ◌+◌, ◌==◌, ◌||◌, ◌∷◌, ◌≡◌,
}
use iexapitest.Config.Daemon.Steps.{timeout_path}
use iexapitest.Config.PropertyTree.{Integers, JsonFiles, Lexical, PropertyTree}
use iexapitest.Config.Store.{
  Config, array_of, get_array, get_as, get_string, item_values, with_array,
}
use iexapitest.Config.Daemon.{
  get_iex_tocken, get_iex_update_symbols, get_iex_update_timeout, get_iex_url, path_of,
}
use iexapitest.Http.Perform.{handle_failure, is_network_error, perform, perform_get}
use iexapitest.Http.Connection.{connection_options, construct}
use iexapitest.Http.Headers.{parse_response_headers}
use iexapitest.Rpc.Client.Answers.{Returned, Returns, get_http_company_info-Returns}
use iexapitest.Rpc.Client.Failures.{address_of, request_type}
use iexapitest.Rpc.Client.{CompanyInfo, get_http_company_info}
use iexapitest.Db.Sqlite.Runs.{idle}
use iexapitest.Examples.Config.{cast, leaf, start, store, tree}
use iexapitest.Examples.Disk.{disk}
use iexapitest.Examples.Server.{server}
use iexapitest.Http.Curl.{Curl, CurlOption, could_not_connect, url}
use iexapitest.Controller.Updates.Worlds.{EndsWith}
use iexapitest.Controller.Updates.Rounds.{Fetched, fetched_none, fetched_one}
use iexapitest.Controller.Life.{LifeCall, closed, drive, new_controller, no_thread, opened}
use iexapitest.Db.Market.{Market, Stores}
use iexapitest.Controller.Updates.Market.{enter_prices, record_all, record_info, record_rounds}
use iexapitest.Db.Sqlite.Meaning.{Tables, put_table}
use iexapitest.Controller.Updates.{World, update_prices}
use iexapitest.Db.Companies.{companies_table}
use iexapitest.Controller.Life.Calls.{drive_lem, verdict}
use iexapitest.Db.Companies.Records.{find_company, register, table_of}
use iexapitest.Db.Sqlite.Reading.{is_literal}
use iexapitest.Examples.Memory.{memory, memory-IsAt, memory-IsDocumented}
use iexapitest.Db.Prices.Ledgers.{enter, prices_of}
use iexapitest.Db.Prices.{prices_table}
use iexapitest.Controller.Updates.Loops.{update_prices-Ends, update_prices_terminates}

abbrev pub quoted : PropertyTree
quoted = record tree {
  items = λ t.
      (codes "", leaf (codes "fb"))
      ∷ (if text_eq t.own (codes "8") then (codes "", leaf (codes "zz")) ∷ [] else []);
  parse_json = λ text. some (record {
    own = [];
    paths =
        (codes "companyName", codes "Facebook")
        ∷ (codes "symbol", codes "FB")
        ∷ (codes "latestPrice", codes "9")
        ∷ (codes "latestUpdate", codes "7")
        ∷ (codes "url", codes "https://logo")
        ∷ [];
    names = [];
  });
}

abbrev pub quoted_store : JsonFiles quoted disk
quoted_store = record { write_file = store.write_file; read_file = store.read_file }

-- The configuration with a value for the time between updates, where the symbols are looked for too
abbrev started : Text → Config quoted disk
started seconds = record {
  root = record (start.root) {
    paths = (codes "iex_api.url", codes "https://cloud") ∷ (timeout_path, seconds) ∷ [];
  };
  locked = false;
  config_path = start.config_path;
  config_folder = start.config_folder;
  files = [];
}

abbrev pub quoted_start : Config quoted disk
quoted_start = started (codes "7")

abbrev listing_start : Config quoted disk
listing_start = started (codes "8")

abbrev reads_seven : Lexical ℤ
reads_seven = record { show = cast.show; read = λ text. some (pos 7) }

abbrev pub seven : Integers
seven = record { int = reads_seven; int64 = reads_seven }

abbrev pub nine : Lexical ℕ
nine = record { show = λ n. to_decimal n; read = λ text. some 9 }

abbrev pub quote : CompanyInfo ℕ
quote = record {
  short_name = codes "FB";
  full_name = codes "Facebook";
  logo = codes "https://logo";
  price_list = record { price = 9; date_timestamp = pos 7; date_string = codes "7" } ∷ [];
}

starts_with : Text → Text → Bool
starts_with [] s = true
starts_with (c ∷ p) [] = false
starts_with (c ∷ p) (d ∷ s) = (c == d) && starts_with p s

-- A transfer for the symbol zz
asks_for_zz : List CurlOption → Bool
unfolding starts_with
asks_for_zz [] = false
asks_for_zz (url address ∷ options) =
    starts_with (codes "https://cloud/stable/stock/zz") address || asks_for_zz options
asks_for_zz (_ ∷ options) = asks_for_zz options

-- The server, which cannot be reached about one symbol
pub service : Curl
unfolding asks_for_zz
service = record server {
  perform = λ handle.
      if asks_for_zz handle then ([], could_not_connect, handle) else server.perform handle;
}

pub fb_answered :
    (seconds : Text)
    → get_http_company_info service quoted_store seven nine (codes "fb") [] [] (started seconds)
      ≡ (ok quote, started seconds)
unfolding get_http_company_info perform_get perform construct get_iex_url path_of text_eq get_string
    get_iex_tocken connection_options parse_response_headers find lookup service
fb_answered seconds = refl

get_http_company_info-Returns_example :
    Returns service quoted_store seven nine quoted_start
      (Returned service quoted_store seven nine
        (perform_get service (
          address_of service quoted_store seven nine quoted_start.root
            (codes "fb")
            (codes "quote")))
        (perform_get service (
          address_of service quoted_store seven nine quoted_start.root
            (codes "fb")
            (codes "logo"))))
      (get_http_company_info service quoted_store seven nine (codes "fb") [] [] quoted_start)
unfolding request_type
get_http_company_info-Returns_example =
    get_http_company_info-Returns service quoted_store seven nine (codes "fb") [] [] quoted_start
      refl

pub zz_throws :
    (seconds : Text)
    → get_http_company_info service quoted_store seven nine (codes "zz") [] [] (started seconds)
      ≡ (err (network_exception (codes "no error")), started seconds)
unfolding get_http_company_info perform_get perform construct get_iex_url path_of text_eq get_string
    get_iex_tocken connection_options parse_response_headers find lookup service is_network_error
    handle_failure
zz_throws seconds = refl

-- The database and the configuration before each example: the tables are there, and empty.
abbrev pub market : Market ℕ
market = record {
  registry = record { companies = []; last_id = 0 };
  ledger = record { entries = []; last_id = 0 };
}

abbrev pub tables : Tables ℕ
tables =
    put_table companies_table (some (table_of ℕ market.registry))
      (put_table prices_table (some (prices_of ℕ market.ledger)) (λ name. none))

abbrev world : World quoted disk memory
world = record { cfg = quoted_start; database = idle tables }

abbrev twice : ℕ → ℕ
twice n = n + n

pub tables-Stores : Stores ℕ tables market
unfolding text_eq
tables-Stores = (refl, refl)

fb-Fetched :
    (seconds : Text)
    → Fetched service quoted_store seven nine (started seconds) (codes "fb" ∷ []) (quote ∷ [])
unfolding is_literal
fb-Fetched seconds = fetched_one (codes "fb") [] quote [] (fb_answered seconds) refl fetched_none

timeout_read :
    get_iex_update_timeout quoted_store seven.int quoted_start ≡ (ok (pos 7), quoted_start)
unfolding lookup text_eq get_iex_update_timeout path_of get_as
timeout_read = refl

symbols_read :
    get_iex_update_symbols quoted_store seven.int quoted_start
    ≡ (ok (codes "fb" ∷ []), quoted_start)
unfolding lookup text_eq get_iex_update_symbols path_of get_array item_values with_array array_of
symbols_read = refl

update_prices-Ends_example :
    (u : Tables ℕ) × EndsWith memory memory-IsDocumented
      (update_prices service quoted_store seven nine memory twice (false ∷ false ∷ true ∷ []))
      world
      (ok true)
      quoted_start
      u
    × Stores ℕ u (record_rounds suc twice 2 (quote ∷ []) market)
unfolding memory-IsDocumented
update_prices-Ends_example =
    update_prices-Ends service quoted_store seven nine memory memory-IsDocumented twice 2 [] (pos 7)
      (codes "fb" ∷ []) (quote ∷ []) quoted_start market tables world timeout_read symbols_read
      (fb-Fetched (codes "7")) tables-Stores (refl, memory-IsAt tables)

both_symbols_read :
    get_iex_update_symbols quoted_store seven.int listing_start
    ≡ (ok (codes "fb" ∷ codes "zz" ∷ []), listing_start)
unfolding lookup text_eq get_iex_update_symbols path_of get_array item_values with_array array_of
both_symbols_read = refl

timeout_of_both :
    get_iex_update_timeout quoted_store seven.int listing_start ≡ (ok (pos 7), listing_start)
unfolding lookup text_eq get_iex_update_timeout path_of get_as
timeout_of_both = refl

abbrev listing : World quoted disk memory
listing = record { cfg = listing_start; database = idle tables }

update_prices_terminates_example :
    (u : Tables ℕ) × EndsWith memory memory-IsDocumented
      (uncaught (update_prices service quoted_store seven nine memory twice (false ∷ [])))
      listing
      (halt terminated)
      listing_start
      u
    × Stores ℕ u (record_all suc twice (quote ∷ []) market)
unfolding memory-IsDocumented
update_prices_terminates_example =
    update_prices_terminates service quoted_store seven nine memory memory-IsDocumented twice
      (codes "fb" ∷ []) [] (codes "zz") (quote ∷ []) (network_exception (codes "no error")) []
      (pos 7) listing_start market tables listing timeout_of_both both_symbols_read
      (fb-Fetched (codes "8")) (zz_throws (codes "8")) tables-Stores (refl, memory-IsAt tables)

two_prices : length (record_rounds suc twice 2 (quote ∷ []) market).ledger.entries ≡ 2
unfolding record_rounds record_all record_info enter_prices enter text_eq register find_company
two_prices = refl

-- A Start, a Stop, and a Stop too many
abbrev stopped_twice : List LifeCall
stopped_twice = opened (some 1) ∷ closed ∷ closed ∷ []

drive_lem_example :
    let (r, c') = drive 5 stopped_twice new_controller in
    (r ≡ err no_thread) × (c'.update_prices_thr ≡ false) × (c'.rpc_service.is_started ≡ false)
unfolding verdict
drive_lem_example = drive_lem 5 stopped_twice new_controller refl
