-- ===== src/Rpc/Client/Failures.antt =====
-- Which address is asked, and which failures of the IEX service reach the caller.
use iexapitest.Base.{
  Bool-cases, Exception, Result, Text, [], ap, arith, codes, err, false, halt, if◌then◌else◌, inl,
  inr, is_empty, is_http, ok, pure, recover, refl, sym, text_eq, ◌&&◌, ◌++◌, ◌∙◌, ◌∷◌, ◌≡◌,
}
use iexapitest.Filesystem.Syscalls.{Posix}
use iexapitest.Http.Curl.{Curl}
use iexapitest.Config.PropertyTree.{Integers, JsonFiles, Lexical, PropertyTree}
use iexapitest.Config.Store.{Config, value_or}
use iexapitest.Config.Store.Access.{get_string_lem}
use iexapitest.Config.Daemon.{default_token, default_url, get_iex_tocken, get_iex_url, path_of}
use iexapitest.Rpc.Client.{
  CompanyInfo, company_info, create_url, get_company_info, get_company_info_in, get_company_info_on,
  get_http_company_info, get_page, no_info, or_no_info,
}
use iexapitest.Config.Keys.{key_path, section_eq, section_key}
use iexapitest.Http.Perform.{perform_get}

-- What is asked for about a company.
unfoldable pub request_type : Text → Text → Text
request_type time_frame date =
    if is_empty time_frame && is_empty date
    then codes "quote"
    else if is_empty date
    then codes "chart/" ++ time_frame
    else codes "chart/" ++ (time_frame ++ (codes "/" ++ date))

abbrev pub or_caught : {A : Type 0} → Exception → A → Result A
or_caught e a = if is_http e then ok a else err e

module _ {T : PropertyTree} {P : Posix} {Float : Type 0} (C : Curl) (J : JsonFiles T P)
    (L : Integers) (F : Lexical Float) where
  -- The address, from the configuration.
  unfoldable pub address_of : T.Tree → Text → Text → Text
  address_of root symbol type =
      value_or (T.get root (codes "iex_api.url")) default_url
      ++ (codes "/stable/stock/"
          ++ (symbol
              ++ (codes "/"
                  ++ (type
                      ++ (codes "?token="
                          ++ value_or (T.get root (codes "iex_api.tocken")) default_token)))))

  pub create_url_lem :
      (symbol type : Text) (s : Config T P)
      → s.locked ≡ false
      → create_url C J L F symbol type s ≡ (ok (address_of s.root symbol type), s)
  unfolding create_url address_of get_iex_url get_iex_tocken path_of key_path section_eq section_key
      text_eq
  create_url_lem symbol type s free =
      rw
        (
          get_string_lem J (codes "iex_api.url") default_url s free,
          get_string_lem J (codes "iex_api.tocken") default_token s free,
        )
        refl

  pub dispatch :
      (short_name time_frame date : Text) (s : Config T P)
      → get_http_company_info C J L F short_name time_frame date s
        ≡ or_no_info C J L F (company_info C J L F short_name (request_type time_frame date)) s
  unfolding get_http_company_info get_company_info get_company_info_in get_company_info_on
      request_type
  dispatch short_name [] [] s = refl
  dispatch short_name (c ∷ time_frame) [] s = refl
  dispatch short_name [] (d ∷ date) s = refl
  dispatch short_name (c ∷ time_frame) (d ∷ date) s = refl

  -- With the mutex free the request goes to the configured address of the kind that is asked for. If
  -- PerformGet throws an HTTPException, an empty CompanyInfo is returned; any other exception goes to
  -- the caller, a NetworkException too. Either way the configuration is unchanged.
  pub get_http_company_info_failed :
      (short_name time_frame date : Text) (s : Config T P) (e : Exception)
      → s.locked ≡ false
      → perform_get C (address_of s.root short_name (request_type time_frame date)) ≡ err e
      → get_http_company_info C J L F short_name time_frame date s ≡ (or_caught e no_info, s)
  unfolding company_info or_no_info get_page
  get_http_company_info_failed short_name time_frame date s e free failed =
      dispatch short_name time_frame date s
      ∙ rw (create_url_lem short_name (request_type time_frame date) s free, failed)
          (elim (Bool-cases (is_http e)) [ inl h ↦ rw h refl | inr h ↦ rw h refl ])

  -- An exception of a try block with a handler for HTTPException is no HTTPException.
  or_no_info-throws :
      (r : Result (CompanyInfo Float)) (s : Config T P) (e : Exception)
      → (recover is_http (λ e'. pure no_info) r s).0 ≡ err e
      → is_http e ≡ false
  or_no_info-throws (ok info) s e h = cc
  or_no_info-throws (halt f) s e h = cc
  or_no_info-throws (err e') s e h = grind arith

  -- No HTTPException reaches the caller of GetHTTPCompanyInfo.
  get_http_company_info-throws :
      (short_name time_frame date : Text) (s : Config T P) (e : Exception)
      → (get_http_company_info C J L F short_name time_frame date s).0 ≡ err e
      → is_http e ≡ false
  unfolding or_no_info
  get_http_company_info-throws short_name time_frame date s e h =
      let ran = company_info C J L F short_name (request_type time_frame date) s in
      or_no_info-throws ran.0 ran.1 e
        (ap (λ r. r.0) (sym (dispatch short_name time_frame date s)) ∙ h)
