-- ===== src/Rpc/Client/Answers.antt =====
-- Which infos GetHTTPCompanyInfo returns, by the pages that the IEX service answers with.
use iexapitest.Base.{
  Bool-cases, Exec, Option, Result, Text, [], ap, codes, err, false, halt, inl, inr, is_http, lift,
  none, ok, pure, refl, some, sym, true, try_catch, ◌>>=◌, ◌↔◌, ◌∙◌, ◌≡◌,
}
use iexapitest.Filesystem.Syscalls.{Posix}
use iexapitest.Http.Curl.{Curl}
use iexapitest.Config.PropertyTree.{Integers, JsonFiles, Lexical, PropertyTree}
use iexapitest.Config.Store.{Config}
use iexapitest.Rpc.Client.Failures.{address_of, create_url_lem, dispatch, or_caught, request_type}
use iexapitest.Rpc.Client.{
  CompanyInfo, company_info, get_company_logo_link, get_http_company_info, get_page, get_text,
  logo_link, no_info, or_no_info, parse_company_info, read_json,
}
use iexapitest.Http.Perform.{perform_get}
use iexapitest.Rpc.Client.Pages.{
  Gives, Gives-then, get_text-Gives, link_of, parse_company_info-Gives, quote_of, read_json-Gives,
}

abbrev pub with_logo : {Float : Type 0} → Text → CompanyInfo Float → CompanyInfo Float
with_logo link info = record info { logo = link }

module _ {T : PropertyTree} {P : Posix} {Float : Type 0} (C : Curl) (J : JsonFiles T P)
    (L : Integers) (F : Lexical Float) where
  -- The link that is put into an info, by the end of the request for it
  abbrev pub LogoIs : Result Text → Text → Type 0
  LogoIs (ok page) link = link_of C J L F page ≡ some link
  LogoIs (err e) link = (is_http e ≡ true) × (link ≡ [])
  LogoIs (halt f) link = ⊥

  -- The infos that are returned, by the ends of the two requests
  abbrev pub Returned : Result Text → Result Text → CompanyInfo Float → Type 0
  Returned (ok page) logo_page info =
      (quote : CompanyInfo Float) × (quote_of C J L F page ≡ some quote)
      × LogoIs logo_page info.logo
      × (info ≡ with_logo info.logo quote)
  Returned (err e) logo_page info = (is_http e ≡ true) × (info ≡ no_info)
  Returned (halt f) logo_page info = ⊥

  -- How the request for the logo ends, by what PerformGet does
  abbrev LinkGives : Config T P → Result Text → Exec (Config T P) Text → Type 0
  LinkGives s (ok page) m = Gives s (link_of C J L F page) m
  LinkGives s (err e) m = m s ≡ (or_caught e [], s)
  LinkGives s (halt f) m = m s ≡ (halt f, s)

  Gives-caught :
      (s : Config T P) (o : Option Text) (m : Exec (Config T P) Text)
      → Gives s o m
      → Gives s o (try_catch m is_http (λ e. pure []))
  Gives-caught s none m (e, fails, other) = (e, rw (fails, other) refl, other)
  Gives-caught s (some link) m e = rw e refl

  after_page : Text → Exec (Config T P) Text
  after_page page = lift (read_json C J L F page) >>= λ pt. lift (get_text C J L F pt (codes "url"))

  Gives-same :
      (s : Config T P) (o : Option Text) (m n : Exec (Config T P) Text)
      → m s ≡ n s
      → Gives s o n
      → Gives s o m
  Gives-same s none m n same (e, fails, other) = (e, same ∙ fails, other)
  Gives-same s (some link) m n same e = same ∙ e

  logo_link-page :
      (short_name : Text) (s : Config T P) (page : Text)
      → s.locked ≡ false
      → perform_get C (address_of C J L F s.root short_name (codes "logo")) ≡ ok page
      → logo_link C J L F short_name s ≡ after_page page s
  unfolding logo_link get_page after_page
  logo_link-page short_name s page free e =
      rw (create_url_lem C J L F short_name (codes "logo") s free, e) refl

  logo-LinkGives :
      (short_name : Text) (s : Config T P) (r : Result Text)
      → s.locked ≡ false
      → perform_get C (address_of C J L F s.root short_name (codes "logo")) ≡ r
      → LinkGives s r (get_company_logo_link C J L F short_name)
  unfolding get_company_logo_link logo_link get_page link_of after_page
  logo-LinkGives short_name s (ok page) free e =
      Gives-caught s (link_of C J L F page) (logo_link C J L F short_name) (
        Gives-same s (link_of C J L F page) (logo_link C J L F short_name) (after_page page)
          (logo_link-page short_name s page free e)
          (Gives-then s (T.parse_json page) _ _ _ (read_json-Gives C J L F s page)
            (λ pt. get_text-Gives C J L F s pt (codes "url"))))
  logo-LinkGives short_name s (err x) free e =
      rw (create_url_lem C J L F short_name (codes "logo") s free, e)
        (elim (Bool-cases (is_http x)) [ inl h ↦ rw h refl | inr h ↦ rw h refl ])
  logo-LinkGives short_name s (halt f) free e =
      rw (create_url_lem C J L F short_name (codes "logo") s free, e) refl

  -- A call leaves the object as it is, and returns exactly these values.
  abbrev pub Returns : {A : Type 0} → Config T P → (A → Type 0) → Result A × Config T P → Type 0
  Returns s good end = (end.1 ≡ s) × ((a : _) → (end.0 ≡ ok a) ↔ good a)

  labelled :
      (quote : CompanyInfo Float) (link : Text) (info : CompanyInfo Float)
      → (Result.ok (with_logo link quote) ≡ ok info)
        ↔ ((some link ≡ some info.logo) × (info ≡ with_logo info.logo quote))
  labelled quote link info = (
    (λ e.
        let same : with_logo link quote ≡ info = cc in
        let text : link ≡ info.logo = ap (λ x. x.logo) same in
        (ap some text, sym same ∙ ap (λ l. with_logo l quote) text)),
    (λ (e, shape).
        let text : link ≡ info.logo = cc in ap ok (ap (λ l. with_logo l quote) text ∙ sym shape)),
  )

  -- Behind a page that holds an info
  quoted-Returns :
      (s : Config T P) (quote : CompanyInfo Float) (logo_page : Result Text)
      (m : Exec (Config T P) Text)
      → LinkGives s logo_page m
      → Returns s
          (λ info. LogoIs logo_page info.logo × (info ≡ with_logo info.logo quote))
          (or_no_info C J L F (m >>= λ link. pure (with_logo link quote)) s)
  unfolding or_no_info
  quoted-Returns s quote (ok page) m h = go (link_of C J L F page) h
    where
      go :
          (o : Option Text)
          → Gives s o m
          → Returns s
              (λ info. (o ≡ some info.logo) × (info ≡ with_logo info.logo quote))
              (or_no_info C J L F (m >>= λ link. pure (with_logo link quote)) s)
      go none (e, fails, other) = rw (fails, other) (refl, λ info. ((λ x. cc), (λ (x, y). cc)))
      go (some link) e = rw e (refl, labelled quote link)
  quoted-Returns s quote (err e) m h = elim (Bool-cases (is_http e)) [
    | inl caught ↦
        let without : m s ≡ (ok [], s) = h ∙ rw caught refl in
        rw without (
          refl,
          λ info. (
            (λ x. let (link, shape) = (labelled quote [] info).0 x in ((caught, cc), shape)),
            (λ (x, shape). (labelled quote [] info).1 (cc, shape)),
          ),
        )
    | inr other ↦
        let fails : m s ≡ (err e, s) = h ∙ rw other refl in
        rw (fails, other) (refl, λ info. ((λ x. cc), (λ (x, shape). cc)))
  ]
  quoted-Returns s quote (halt f) m h = rw h (refl, λ info. ((λ x. cc), (λ (x, shape). absurd x)))

  -- Behind the first page, by the info that it holds
  page-Returns :
      (short_name type : Text) (s : Config T P) (page : Text)
      → s.locked ≡ false
      → perform_get C (address_of C J L F s.root short_name type) ≡ ok page
      → (o : Option (CompanyInfo Float)) → Gives s o (parse_company_info C J L F page)
      → Returns s
          (λ info.
            (quote : CompanyInfo Float) × (o ≡ some quote)
            × LogoIs (perform_get C (address_of C J L F s.root short_name (codes "logo"))) info.logo
            × (info ≡ with_logo info.logo quote))
          (or_no_info C J L F (company_info C J L F short_name type) s)
  unfolding company_info or_no_info get_page
  page-Returns short_name type s page free e none (x, fails, other) =
      rw (create_url_lem C J L F short_name type s free, e, fails, other)
        (refl, λ info. ((λ h. cc), (λ (quote, h, link, shape). cc)))
  page-Returns short_name type s page free e (some quote) holds =
      let (kept, exact) =
        quoted-Returns s quote (perform_get C (address_of C J L F s.root short_name (codes "logo")))
          (get_company_logo_link C J L F short_name)
          (logo-LinkGives short_name s
            (perform_get C (address_of C J L F s.root short_name (codes "logo"))) free refl) in
      rw (create_url_lem C J L F short_name type s free, e, holds)
        (
          kept,
          λ info. (
            (λ h. let (link, shape) = (exact info).0 h in (quote, refl, link, shape)),
            (λ (quote', same, link, shape).
                let e' : quote' ≡ quote = cc in
                (exact info).1 (link, shape ∙ ap (λ q. with_logo info.logo q) e')),
          ),
        )

  -- A call of GetHTTPCompanyInfo with the mutex free, by what PerformGet does at the address of the
  -- request and at that of the logo. It returns an info exactly in these cases: the first page is
  -- JSON with the four fields, price and time are numbers, the info holds them, and its logo is the
  -- link of the second page, or empty after an HTTPException; or the first request ends with an
  -- HTTPException, and the info is empty. In every case the configuration is unchanged.
  pub get_http_company_info-Returns :
      (short_name time_frame date : Text) (s : Config T P)
      → s.locked ≡ false
      → Returns s
          (Returned
            (perform_get C (address_of C J L F s.root short_name (request_type time_frame date)))
            (perform_get C (address_of C J L F s.root short_name (codes "logo"))))
          (get_http_company_info C J L F short_name time_frame date s)
  unfolding company_info or_no_info get_page
  get_http_company_info-Returns short_name time_frame date s free =
      let address = address_of C J L F s.root short_name (request_type time_frame date) in
      rw (dispatch C J L F short_name time_frame date s) (go (perform_get C address) refl)
    where
      go :
          (r : Result Text)
          → perform_get C (address_of C J L F s.root short_name (request_type time_frame date)) ≡ r
          → Returns s
              (Returned r (perform_get C (address_of C J L F s.root short_name (codes "logo"))))
              (or_no_info C J L F
                (company_info C J L F short_name (request_type time_frame date))
                s)
      go (ok page) e =
          page-Returns short_name (request_type time_frame date) s page free e
            (quote_of C J L F page) (parse_company_info-Gives C J L F s page)
      go (err x) e =
          rw (create_url_lem C J L F short_name (request_type time_frame date) s free, e)
            (elim (Bool-cases (is_http x)) [
              | inl caught ↦ rw caught (refl, λ info. ((λ h. (refl, cc)), (λ (h, empty). cc)))
              | inr other ↦ rw other (refl, λ info. ((λ h. cc), (λ (h, empty). cc)))
            ])
      go (halt f) e =
          rw (create_url_lem C J L F short_name (request_type time_frame date) s free, e)
            (refl, λ info. ((λ h. cc), (λ h. absurd h)))
