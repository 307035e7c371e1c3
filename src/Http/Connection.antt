-- ===== src/Http/Connection.antt =====
-- http_transaction.cpp: `InitConnection` and the constructor.
pub mod Asked
pub mod Options
use iexapitest.Base.{
  List, Option, Result, Text, [], codes, err, false, halt, http_exception, if◌then◌else◌, is_empty,
  ltb, none, ok, some, ℕ, ◌++◌, ◌==◌, ◌||◌, ◌∷◌,
}
use iexapitest.Http.Streams.{Stream}
use iexapitest.Http.Types.{HttpTransactionData}
use iexapitest.Http.Curl.{
  Curl, CurlOption, connect_timeout, custom_request, follow_location, header_data, header_function,
  http_header, http_post, infile_size_large, noprogress, nosignal, read_data, read_function,
  ssl_ctx_data, ssl_ctx_function, ssl_verify_host, ssl_verify_peer, timeout, upload, url,
  write_data, write_function,
}
use iexapitest.Http.Transaction.{
  Transaction, calculate_upload_data_size, get_method_str, init_form_data, init_headers,
}

-- A timeout in seconds: the default for 0 and for what is above the limit.
timeout_or : ℕ → ℕ → ℕ → ℕ
timeout_or limit default seconds = if seconds == 0 || ltb limit seconds then default else seconds

pub read_timeout : HttpTransactionData → ℕ
unfolding timeout_or
read_timeout d = timeout_or 300 60 d.read_timeout_sec

pub connection_timeout : HttpTransactionData → ℕ
unfolding timeout_or
connection_timeout d = timeout_or 50 5 d.connection_timeout_sec

unfoldable pub certificate_options : Option Stream → List CurlOption
certificate_options (some bundle) =
    ssl_verify_peer 1 ∷ ssl_verify_host 2 ∷ ssl_ctx_function ∷ ssl_ctx_data ∷ []
certificate_options none = ssl_verify_peer 0 ∷ ssl_verify_host 0 ∷ []

unfoldable pub upload_options : ℕ → List CurlOption
upload_options size =
    if size == 0 then [] else read_function ∷ read_data ∷ infile_size_large size ∷ upload 1 ∷ []

unfoldable pub form_options : List (Text × Text) → List (Text × Text) → List CurlOption
form_options form_data posted = if is_empty form_data then [] else http_post posted ∷ []

-- The options, in the order in which `InitConnection` sets them.
unfoldable pub connection_options :
    HttpTransactionData → ℕ → List Text → List (Text × Text) → List CurlOption
unfolding certificate_options upload_options form_options read_timeout connection_timeout
    get_method_str
connection_options d upload_data_size headers posted =
    (nosignal 1
      ∷ url d.request.url
      ∷ custom_request (get_method_str d.request.method)
      ∷ http_header headers
      ∷ noprogress 1
      ∷ timeout (read_timeout d)
      ∷ follow_location 1
      ∷ connect_timeout (connection_timeout d)
      ∷ [])
    ++ (certificate_options d.request.ca_cert_bundle
        ++ (upload_options upload_data_size
            ++ (form_options d.request.form_data posted
                ++ write_function ∷ write_data ∷ header_function ∷ header_data ∷ [])))

module _ (C : Curl) where
  open C use {Handle, easy_init, setopt}

  -- One checked `curl_easy_setopt` after the other.
  pub set_options : Handle → List CurlOption → Result Handle
  set_options handle [] = ok handle
  set_options handle (option ∷ options) = elim (setopt handle option) [
    | none ↦ err (http_exception (codes "CURLE_OK == curl_easy_setopt FAILED"))
    | some handle' ↦ set_options handle' options
  ]

  checked_handle : Option Handle → List CurlOption → Result Handle
  checked_handle none options = err (http_exception (codes "!!curl FAILED"))
  checked_handle (some handle) options = set_options handle options

  -- `catch (std::exception const &)`
  rethrown : Result Handle → Result Handle
  rethrown (ok handle) = ok handle
  rethrown (err e) = err (http_exception (codes "HTTP transaction initialization failed"))
  rethrown (halt f) = halt f

  unfoldable pub init_connection :
      HttpTransactionData → ℕ → List Text → List (Text × Text) → Result Handle
  unfolding set_options checked_handle rethrown
  init_connection d upload_data_size headers posted =
      rethrown (checked_handle easy_init (connection_options d upload_data_size headers posted))

  with_connection :
      HttpTransactionData
      → ℕ
      → List Text
      → List (Text × Text)
      → Result Handle
      → Result (Transaction Handle)
  with_connection d size headers posted (err e) = err e
  with_connection d size headers posted (halt f) = halt f
  with_connection d size headers posted (ok handle) = ok (record {
    http_transaction = d;
    upload_data_size = size;
    headers = headers;
    response_headers_data = [];
    form_data = posted;
    connection = handle;
    completed = false;
  })

  -- The constructor: its members in the order of their declaration.
  unfoldable pub construct : HttpTransactionData → Result (Transaction Handle)
  unfolding init_connection with_connection calculate_upload_data_size init_headers init_form_data
  construct http_transaction =
      let (size, d) = calculate_upload_data_size http_transaction in
      let headers = init_headers d in
      let posted = init_form_data d in
      with_connection d size headers posted (init_connection d size headers posted)
