-- ===== src/Rpc/Method.antt =====
-- rpc/grpc/peakwork_server.cpp: GetCompanyInfo, the method that the gRPC server offers, with the
-- address that Start listens on. The messages that are generated from protos/peakwork_server.proto are
-- records of what their accessors give.
pub mod Replies
use iexapitest.Base.{
  Bool, Exec, List, Option, Text, [], codes, if◌then◌else◌, ok, pure, some, true, try_catch, ℤ,
  ◌++◌, ◌>>=◌, ◌>>◌, ◌∷◌,
}
use iexapitest.Filesystem.Syscalls.{Posix}
use iexapitest.Config.PropertyTree.{JsonFiles, Lexical, PropertyTree}
use iexapitest.Config.Store.{Config}
use iexapitest.Config.Daemon.{get_grpc_server_interface, get_grpc_server_port}
use iexapitest.Rpc.Client.{CompanyInfo, Price}

pub record TimeLimit : Type 0 where
  pub is_initialized : Bool
  pub time_frame : Text
  pub date : Text

pub record GetCompanyRequest : Type 0 where
  pub company : List Text
  pub time_limit : TimeLimit

-- The data of `json_data`, `none` where it is not set.
pub record GetCompanyResponse : Type 0 where
  pub json_data : Option Text

pub data Status : Type 0 where
  ok_status cancelled : Status

-- The state of the handler, and the response.
pub record Serving (W : Type 0) : Type 0 where
  pub handler_state : W
  pub response : GetCompanyResponse

module _ (T : PropertyTree) {Float : Type 0} (F : Lexical Float) where
  -- The loop over `info.priceList`
  unfoldable pub prices_tree : List (Price Float) → T.Tree → T.Tree
  prices_tree [] prices = prices
  prices_tree (price ∷ rest) prices =
      prices_tree rest (T.push_back prices [] (T.put T.empty [] (F.show price.price)))

  unfoldable pub company_tree : CompanyInfo Float → T.Tree
  unfolding prices_tree
  company_tree info =
      T.add_child (T.put (T.put T.empty (codes "name") info.full_name) (codes "logo") info.logo)
        (codes "prices") (prices_tree info.price_list T.empty)

  -- The loop over `companiesInfo`
  unfoldable pub reply_tree : List (CompanyInfo Float) → T.Tree → T.Tree
  unfolding company_tree
  reply_tree [] json_result = json_result
  reply_tree (info ∷ infos) json_result =
      reply_tree infos (T.push_back json_result [] (company_tree info))

abbrev on_handler : {W A : Type 0} → Exec W A → Exec (Serving W) A
on_handler m s = let (r, w) = m s.handler_state in (r, record s { handler_state = w })

set_json_data : {W : Type 0} → Text → Exec (Serving W) (Unit {0})
set_json_data json s = (ok tt, record s { response = record { json_data = some json } })

-- What is passed on of the time limit
abbrev pub if_initialized : TimeLimit → Text → Text
if_initialized limit text = if limit.is_initialized then text else []

module _ (T : PropertyTree) {Float W : Type 0} (F : Lexical Float)
    (handler : List Text → Text → Text → Exec W (List (CompanyInfo Float))) where
  answer_request : GetCompanyRequest → Exec (Serving W) Status
  unfolding reply_tree set_json_data
  answer_request request = do
    companies_info ← on_handler (
        handler request.company (if_initialized request.time_limit request.time_limit.time_frame)
          (if_initialized request.time_limit request.time_limit.date))
    set_json_data (T.print_json (reply_tree T F companies_info T.empty))
    pure ok_status

  -- The method. Its handler is for every std::exception.
  unfoldable pub get_company_info_method : GetCompanyRequest → Exec (Serving W) Status
  unfolding answer_request
  get_company_info_method request =
      try_catch (answer_request request) (λ e. true) (λ e. pure cancelled)

module _ {T : PropertyTree} {P : Posix} (J : JsonFiles T P) (L : Lexical ℤ) where
  -- `server_address` of Start
  unfoldable pub server_address : Exec (Config T P) Text
  server_address = do
    address ← get_grpc_server_interface J L
    number ← get_grpc_server_port J L
    pure (address ++ (codes ":" ++ number))
