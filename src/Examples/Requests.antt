-- ===== src/Examples/Requests.antt =====
-- The gRPC method on a handler that counts, and on the Controller.
use iexapitest.Base.{
  Exec, List, Text, [], codes, inr, network_exception, none, ok, refl, suc, true, ℕ, ◌∷◌, ◌≡◌,
}
use iexapitest.Rpc.Client.{CompanyInfo}
use iexapitest.Rpc.Method.{GetCompanyRequest, Serving, cancelled, get_company_info_method}
use iexapitest.Rpc.Method.Replies.{Replied, get_company_info_method-Replied}
use iexapitest.Controller.Requests.{answered_none, answered_one, one_failure_cancels}
use iexapitest.Examples.Trees.{nodes, nodes-IsBuildable}
use iexapitest.Controller.Updates.{get_companies_info}
use iexapitest.Examples.Controller.{
  fb_answered, nine, quote, quoted, quoted_start, quoted_store, service, seven, zz_throws,
}

-- Trees that a client can read
abbrev request : GetCompanyRequest
request = record {
  company = codes "fb" ∷ [];
  time_limit = record { is_initialized = true; time_frame = codes "1m"; date = [] };
}

abbrev serving : Serving ℕ
serving = record { handler_state = 4; response = record { json_data = none } }

-- A handler that counts its calls
abbrev counting : List Text → Text → Text → Exec ℕ (List (CompanyInfo ℕ))
counting companies time_frame date n = (ok (quote ∷ []), suc n)

get_company_info_method-Replied_example :
    let (r, s') = get_company_info_method nodes nine counting request serving in
    Replied nodes nodes-IsBuildable nine (inr (quote ∷ [])) serving.response r s'.response
    × (s'.handler_state ≡ 5)
get_company_info_method-Replied_example =
    get_company_info_method-Replied nodes nodes-IsBuildable nine counting request serving 5
      (inr (quote ∷ [])) refl

one_failure_cancels_example :
    get_company_info_method quoted nine
      (get_companies_info service quoted_store seven nine)
      (record {
        company = codes "fb" ∷ codes "zz" ∷ codes "aapl" ∷ [];
        time_limit = record { is_initialized = true; time_frame = []; date = [] };
      })
      (record { handler_state = quoted_start; response = record { json_data = none } })
    ≡ (
      ok cancelled,
      record { handler_state = quoted_start; response = record { json_data = none } },
    )
one_failure_cancels_example =
    one_failure_cancels service quoted_store seven nine (codes "fb" ∷ []) (codes "aapl" ∷ [])
      (codes "zz") (quote ∷ []) (network_exception (codes "no error")) [] [] quoted_start
      (record { json_data = none })
      (answered_one (codes "fb") [] quote [] (fb_answered (codes "7")) answered_none)
      (zz_throws (codes "7"))
