-- ===== src/Http/Connection/Asked.antt =====
-- The options that a request asks for, said of each option by itself.
use iexapitest.Base.{
  List, Option, Text, [], ap, arith, codes, inl, inr, map, none, refl, some, subst, sym, ℕ, ◌++◌,
  ◌==◌, ==_iff, Bool-cases, ◌↔◌, ◌∷◌, ◌≡◌, ◌≢◌, ◌⊎◌,
}
use iexapitest.Http.Streams.{Stream}
use iexapitest.Http.Types.{HttpTransactionData}
use iexapitest.Http.Curl.{
  CurlOption, connect_timeout, custom_request, follow_location, header_data, header_function,
  http_header, http_post, infile_size_large, noprogress, nosignal, read_data, read_function,
  ssl_ctx_data, ssl_ctx_function, ssl_verify_host, ssl_verify_peer, timeout, upload, url,
  write_data, write_function,
}
use iexapitest.Http.Transaction.{get_method_str, init_form_data, init_headers}
use iexapitest.Http.Connection.{
  certificate_options, connection_options, connection_timeout, form_options, read_timeout,
  upload_options,
}

abbrev pub Sets : CurlOption → List CurlOption → Type 0
Sets o [] = ⊥
Sets o (p ∷ ps) = (o ≡ p) ⊎ Sets o ps

-- The strings `name: value` of the headers, in their order.
abbrev pub Printed : List (Text × Text) → List Text → Type 0
Printed [] [] = Unit {0}
Printed [] (s ∷ ss) = ⊥
Printed (h ∷ hs) [] = ⊥
Printed (h ∷ hs) (s ∷ ss) = (s ≡ h.0 ++ codes ": " ++ h.1) × Printed hs ss

-- What verification is set to: what it is to be with certificates, and off without.
abbrev verified : Option Stream → ℕ → ℕ
verified none n = 0
verified (some bundle) n = n

-- Each option with its value, and with the condition under which it is set.
abbrev pub Wanted : HttpTransactionData → ℕ → List Text → CurlOption → Type 0
Wanted d size headers (nosignal n) = n ≡ 1
Wanted d size headers (url address) = address ≡ d.request.url
Wanted d size headers (custom_request name) = name ≡ get_method_str d.request.method
Wanted d size headers (http_header strings) = strings ≡ headers
Wanted d size headers (noprogress n) = n ≡ 1
Wanted d size headers (timeout n) = n ≡ read_timeout d
Wanted d size headers (follow_location n) = n ≡ 1
Wanted d size headers (connect_timeout n) = n ≡ connection_timeout d
Wanted d size headers (ssl_verify_peer n) = n ≡ verified d.request.ca_cert_bundle 1
Wanted d size headers (ssl_verify_host n) = n ≡ verified d.request.ca_cert_bundle 2
Wanted d size headers ssl_ctx_function = d.request.ca_cert_bundle ≢ none
Wanted d size headers ssl_ctx_data = d.request.ca_cert_bundle ≢ none
Wanted d size headers read_function = size ≢ 0
Wanted d size headers read_data = size ≢ 0
Wanted d size headers (infile_size_large n) = (n ≡ size) × (size ≢ 0)
Wanted d size headers (upload n) = (n ≡ 1) × (size ≢ 0)
Wanted d size headers (http_post fields) =
    (fields ≡ d.request.form_data) × (d.request.form_data ≢ [])
Wanted d size headers write_function = Unit {0}
Wanted d size headers write_data = Unit {0}
Wanted d size headers header_function = Unit {0}
Wanted d size headers header_data = Unit {0}

-- These options, and no others, are set for the request.
abbrev pub Asked : HttpTransactionData → ℕ → List Text → List CurlOption → Type 0
Asked d size headers options = (o : CurlOption) → Sets o options ↔ Wanted d size headers o

Sets-append :
    (o : CurlOption) (ps qs : List CurlOption) → Sets o (ps ++ qs) ↔ (Sets o ps ⊎ Sets o qs)
Sets-append o [] qs = (λ h. inr h, λ h. elim h [ inl x ↦ absurd x | inr x ↦ x ])
Sets-append o (p ∷ ps) qs =
    let (split, join) = Sets-append o ps qs in
    (
      λ h. elim h [
        | inl same ↦ inl (inl same)
        | inr more ↦ elim (split more) [ inl x ↦ inl (inr x) | inr x ↦ inr x ]
      ],
      λ h. elim h [
        | inl front ↦ elim front [ inl same ↦ inl same | inr x ↦ inr (join (inl x)) ]
        | inr x ↦ inr (join (inr x))
      ],
    )

pub init_headers-Printed : (d : HttpTransactionData) → Printed d.request.headers (init_headers d)
unfolding init_headers
init_headers-Printed d = go d.request.headers
  where
    go :
        (hs : List (Text × Text))
        → Printed hs (map (λ header. header.0 ++ codes ": " ++ header.1) hs)
    go [] = tt
    go (h ∷ hs) = (refl, go hs)

pub init_form_data_lem : (d : HttpTransactionData) → init_form_data d ≡ d.request.form_data
unfolding init_form_data
init_form_data_lem d = go d.request.form_data
  where
    go : (fs : List (Text × Text)) → map (λ field. (field.0, field.1)) fs ≡ fs
    go [] = refl
    go (f ∷ fs) = ap (λ rest. f ∷ rest) (go fs)

AllWanted : HttpTransactionData → ℕ → List Text → List CurlOption → Type 0
AllWanted d size headers [] = Unit {0}
AllWanted d size headers (o ∷ os) = Wanted d size headers o × AllWanted d size headers os

AllWanted-append :
    (d : HttpTransactionData) (size : ℕ) (headers : List Text) (ps qs : List CurlOption)
    → AllWanted d size headers ps
    → AllWanted d size headers qs
    → AllWanted d size headers (ps ++ qs)
unfolding AllWanted
AllWanted-append d size headers [] qs h k = k
AllWanted-append d size headers (p ∷ ps) qs (first, h) k =
    (first, AllWanted-append d size headers ps qs h k)

AllWanted-Sets :
    (d : HttpTransactionData) (size : ℕ) (headers : List Text) (o : CurlOption)
    (ps : List CurlOption)
    → AllWanted d size headers ps
    → Sets o ps
    → Wanted d size headers o
unfolding AllWanted
AllWanted-Sets d size headers o [] h s = absurd s
AllWanted-Sets d size headers o (p ∷ ps) (first, h) (inl same) =
    subst (Wanted d size headers) (sym same) first
AllWanted-Sets d size headers o (p ∷ ps) (first, h) (inr s) = AllWanted-Sets d size headers o ps h s

module _ (d : HttpTransactionData) (size : ℕ) (headers : List Text) where
  certificates-wanted :
      (b : Option Stream)
      → d.request.ca_cert_bundle ≡ b
      → AllWanted d size headers (certificate_options b)
  unfolding AllWanted certificate_options
  certificates-wanted none e = (rw e refl, (rw e refl, tt))
  certificates-wanted (some bundle) e = (rw e refl, (rw e refl, (λ h. cc, (λ h. cc, tt))))

  upload-wanted : AllWanted d size headers (upload_options size)
  unfolding AllWanted upload_options
  upload-wanted = elim (Bool-cases (size == 0)) [
    | inl e ↦ rw e tt
    | inr e ↦
        let full : size ≢ 0 = λ h. ground (arith, ==_iff size 0) in
        rw e (full, (full, ((refl, full), ((refl, full), tt))))
  ]

  form-wanted :
      (fields : List (Text × Text))
      → d.request.form_data ≡ fields
      → AllWanted d size headers (form_options fields d.request.form_data)
  unfolding AllWanted form_options
  form-wanted [] e = tt
  form-wanted (f ∷ fields) e = ((refl, λ h. cc), tt)

  peer_set :
      (b : Option Stream) (n : ℕ)
      → n ≡ verified b 1
      → Sets (ssl_verify_peer n) (certificate_options b)
  unfolding certificate_options
  peer_set none n h = inl (ap (λ k. ssl_verify_peer k) h)
  peer_set (some bundle) n h = inl (ap (λ k. ssl_verify_peer k) h)

  host_set :
      (b : Option Stream) (n : ℕ)
      → n ≡ verified b 2
      → Sets (ssl_verify_host n) (certificate_options b)
  unfolding certificate_options
  host_set none n h = inr (inl (ap (λ k. ssl_verify_host k) h))
  host_set (some bundle) n h = inr (inl (ap (λ k. ssl_verify_host k) h))

  function_set :
      (b : Option Stream)
      → b ≢ none
      → Sets ssl_ctx_function (certificate_options b) × Sets ssl_ctx_data (certificate_options b)
  unfolding certificate_options
  function_set none h = absurd (h refl)
  function_set (some bundle) h = (inr (inr (inl refl)), inr (inr (inr (inl refl))))

  upload_set :
      size ≢ 0
      → upload_options size ≡ read_function ∷ read_data ∷ infile_size_large size ∷ upload 1 ∷ []
  unfolding upload_options
  upload_set full = elim (Bool-cases (size == 0)) [
    | inl e ↦ absurd (full ((==_iff size 0).0 e))
    | inr e ↦ rw e refl
  ]

  form_set :
      (fields : List (Text × Text))
      → fields ≢ []
      → form_options fields d.request.form_data ≡ http_post d.request.form_data ∷ []
  unfolding form_options
  form_set [] h = absurd (h refl)
  form_set (f ∷ fields) h = refl

  abbrev base : List CurlOption
  base =
      nosignal 1
      ∷ url d.request.url
      ∷ custom_request (get_method_str d.request.method)
      ∷ http_header headers
      ∷ noprogress 1
      ∷ timeout (read_timeout d)
      ∷ follow_location 1
      ∷ connect_timeout (connection_timeout d)
      ∷ []

  abbrev callbacks : List CurlOption
  callbacks = write_function ∷ write_data ∷ header_function ∷ header_data ∷ []

  abbrev certificates : List CurlOption
  certificates = certificate_options d.request.ca_cert_bundle

  abbrev form : List CurlOption
  form = form_options d.request.form_data d.request.form_data

  abbrev all : List CurlOption
  all = base ++ (certificates ++ (upload_options size ++ (form ++ callbacks)))

  all-wanted : AllWanted d size headers all
  unfolding AllWanted
  all-wanted =
      AllWanted-append d size headers base _
        (refl, (refl, (refl, (refl, (refl, (refl, (refl, (refl, tt))))))))
        (AllWanted-append d size headers certificates _
          (certificates-wanted d.request.ca_cert_bundle refl)
          (AllWanted-append d size headers (upload_options size) _ upload-wanted (
            AllWanted-append d size headers form _ (form-wanted d.request.form_data refl)
              (tt, (tt, (tt, (tt, tt)))))))

  in_base : (o : CurlOption) → Sets o base → Sets o all
  in_base o h = (Sets-append o base _).1 (inl h)

  in_certificates : (o : CurlOption) → Sets o certificates → Sets o all
  in_certificates o h = (Sets-append o base _).1 (inr ((Sets-append o certificates _).1 (inl h)))

  in_upload : (o : CurlOption) → Sets o (upload_options size) → Sets o all
  in_upload o h = (Sets-append o base _).1 (
      inr (
        (Sets-append o certificates _).1 (inr ((Sets-append o (upload_options size) _).1 (inl h)))))

  behind_upload : (o : CurlOption) → Sets o form ⊎ Sets o callbacks → Sets o all
  behind_upload o h = (Sets-append o base _).1 (
      inr (
        (Sets-append o certificates _).1
          (inr ((Sets-append o (upload_options size) _).1 (inr ((Sets-append o form _).1 h))))))

  sent :
      (o : CurlOption)
      → size ≢ 0
      → Sets o (read_function ∷ read_data ∷ infile_size_large size ∷ upload 1 ∷ [])
      → Sets o all
  sent o full h = in_upload o (subst (Sets o) (sym (upload_set full)) h)

  all-set : (o : CurlOption) → Wanted d size headers o → Sets o all
  all-set (nosignal n) h = in_base _ (inl (ap (λ k. nosignal k) h))
  all-set (url address) h = in_base _ (inr (inl (ap (λ k. url k) h)))
  all-set (custom_request name) h = in_base _ (inr (inr (inl (ap (λ k. custom_request k) h))))
  all-set (http_header strings) h = in_base _ (inr (inr (inr (inl (ap (λ k. http_header k) h)))))
  all-set (noprogress n) h = in_base _ (inr (inr (inr (inr (inl (ap (λ k. noprogress k) h))))))
  all-set (timeout n) h = in_base _ (inr (inr (inr (inr (inr (inl (ap (λ k. timeout k) h)))))))
  all-set (follow_location n) h =
      in_base _ (inr (inr (inr (inr (inr (inr (inl (ap (λ k. follow_location k) h))))))))
  all-set (connect_timeout n) h =
      in_base _ (inr (inr (inr (inr (inr (inr (inr (inl (ap (λ k. connect_timeout k) h)))))))))
  all-set (ssl_verify_peer n) h = in_certificates _ (peer_set d.request.ca_cert_bundle n h)
  all-set (ssl_verify_host n) h = in_certificates _ (host_set d.request.ca_cert_bundle n h)
  all-set ssl_ctx_function h = in_certificates _ (function_set d.request.ca_cert_bundle h).0
  all-set ssl_ctx_data h = in_certificates _ (function_set d.request.ca_cert_bundle h).1
  all-set read_function h = sent _ h (inl refl)
  all-set read_data h = sent _ h (inr (inl refl))
  all-set (infile_size_large n) (h, full) =
      sent _ full (inr (inr (inl (ap (λ k. infile_size_large k) h))))
  all-set (upload n) (h, full) = sent _ full (inr (inr (inr (inl (ap (λ k. upload k) h)))))
  all-set (http_post fields) (h, some_fields) = behind_upload _ (
      inl (
        subst (Sets (http_post fields)) (sym (form_set d.request.form_data some_fields))
          (inl (ap (λ k. http_post k) h))))
  all-set write_function h = behind_upload _ (inr (inl refl))
  all-set write_data h = behind_upload _ (inr (inr (inl refl)))
  all-set header_function h = behind_upload _ (inr (inr (inr (inl refl))))
  all-set header_data h = behind_upload _ (inr (inr (inr (inr (inl refl)))))

  pub connection_options-Asked :
      Asked d size headers (connection_options d size headers d.request.form_data)
  unfolding connection_options
  connection_options-Asked o = (AllWanted-Sets d size headers o all all-wanted, all-set o)
