-- ===== src/Controller/Requests.antt =====
-- The method of the gRPC server with the Controller as its handler.
use iexapitest.Base.{Exception, List, Text, [], err, inr, ok, refl, true, ◌++◌, ◌∷◌, ◌≡◌}
use iexapitest.Filesystem.Syscalls.{Posix}
use iexapitest.Http.Curl.{Curl}
use iexapitest.Config.PropertyTree.{Integers, JsonFiles, Lexical, PropertyTree}
use iexapitest.Config.Store.{Config}
use iexapitest.Rpc.Client.{CompanyInfo, get_http_company_info}
use iexapitest.Rpc.Method.{GetCompanyResponse, cancelled, get_company_info_method}
use iexapitest.Rpc.Method.Replies.{IsBuildable, Replied, get_company_info_method-Replied}
use iexapitest.Controller.Updates.{get_companies_info}

module _ {T : PropertyTree} {P : Posix} {Float : Type 0} (C : Curl) (J : JsonFiles T P)
    (L : Integers) (F : Lexical Float) where
  -- Each company is answered by the info beside it, and the configuration stays.
  pub data Answered (time_frame date : Text) (c : Config T P)
      : List Text → List (CompanyInfo Float) → Type 0 where
    answered_none : Answered time_frame date c [] []
    answered_one :
        (company : Text) (companies : List Text) (info : CompanyInfo Float)
        (infos : List (CompanyInfo Float))
        → get_http_company_info C J L F company time_frame date c ≡ (ok info, c)
        → Answered time_frame date c companies infos
        → Answered time_frame date c (company ∷ companies) (info ∷ infos)

  get_companies_info_lem :
      (time_frame date : Text) (c : Config T P) (companies : List Text)
      (infos : List (CompanyInfo Float))
      → Answered time_frame date c companies infos
      → get_companies_info C J L F companies time_frame date c ≡ (ok infos, c)
  unfolding get_companies_info
  get_companies_info_lem time_frame date c _ _ answered_none = refl
  get_companies_info_lem time_frame date c _ _
        (answered_one company companies info infos answer rest) =
      rw (answer, get_companies_info_lem time_frame date c companies infos rest) refl

  get_companies_info_throws :
      (time_frame date : Text) (c : Config T P) (before after : List Text) (company : Text)
      (infos : List (CompanyInfo Float)) (x : Exception)
      → Answered time_frame date c before infos
      → get_http_company_info C J L F company time_frame date c ≡ (err x, c)
      → get_companies_info C J L F (before ++ company ∷ after) time_frame date c ≡ (err x, c)
  unfolding get_companies_info
  get_companies_info_throws time_frame date c _ after company _ x answered_none bad = rw bad refl
  get_companies_info_throws time_frame date c _ after company _ x
        (answered_one other others info infos answer rest) bad =
      rw (answer, get_companies_info_throws time_frame date c others after company infos x rest bad)
        refl

  -- A request for companies of which one cannot be asked about, with a time limit that is initialized,
  -- where those in front of it are answered: the Controller's exception cancels the whole reply, and
  -- neither the response nor the configuration changes.
  pub one_failure_cancels :
      (before after : List Text) (company : Text) (infos : List (CompanyInfo Float)) (x : Exception)
      (time_frame date : Text) (c : Config T P) (response : GetCompanyResponse)
      → Answered time_frame date c before infos
      → get_http_company_info C J L F company time_frame date c ≡ (err x, c)
      → get_company_info_method T F
          (get_companies_info C J L F)
          (record {
            company = before ++ company ∷ after;
            time_limit = record { is_initialized = true; time_frame = time_frame; date = date };
          })
          (record { handler_state = c; response = response })
        ≡ (ok cancelled, record { handler_state = c; response = response })
  unfolding get_company_info_method
  one_failure_cancels before after company infos x time_frame date c response answered bad =
      rw (get_companies_info_throws time_frame date c before after company infos x answered bad)
        refl

  -- A request with an initialized time limit for companies that are all answered: the status is OK,
  -- and a client that reads the response finds the answers in the order of the companies.
  pub get_company_info_method-Answered :
      (law : IsBuildable T) (companies : List Text) (infos : List (CompanyInfo Float))
      (time_frame date : Text) (c : Config T P) (response : GetCompanyResponse)
      → Answered time_frame date c companies infos
      → let (r, s) =
          get_company_info_method T F
            (get_companies_info C J L F)
            (record {
              company = companies;
              time_limit = record { is_initialized = true; time_frame = time_frame; date = date };
            })
            (record { handler_state = c; response = response }) in
        Replied T law F (inr infos) response r s.response × (s.handler_state ≡ c)
  get_company_info_method-Answered law companies infos time_frame date c response answered =
      get_company_info_method-Replied T law F (get_companies_info C J L F) _
        (record { handler_state = c; response = response }) c (inr infos)
        (get_companies_info_lem time_frame date c companies infos answered)
