-- ===== src/Http/Perform.antt =====
-- http_transaction.cpp: `Perform` and `PerformGet`.
pub mod Outcomes
use iexapitest.Base.{
  Bool, Exception, Exec, List, Option, Result, Text, [], codes, err, false, gets, halt,
  http_exception, if◌then◌else◌, is_network, is_ssl, leb, ltb, network_exception, none, ok, pure,
  some, ssl_certificate_exception, throw, to_decimal, true, ℕ, ◌++◌, ◌>>=◌, ◌>>◌, ◌||◌, ◌∷◌,
}
use iexapitest.Http.Types.{HttpMethod, HttpTransactionData}
use iexapitest.Http.Types
use iexapitest.Http.Curl.{
  Callback, Curl, CurlCode, could_not_connect, could_not_resolve_host, could_not_resolve_proxy,
  e_ok, header, operation_timedout, reads, recv_error, send_error, ssl_cacert, ssl_cacert_badfile,
  ssl_certproblem, ssl_cipher, writes,
}
use iexapitest.Http.Headers.{parse_response_headers}
use iexapitest.Http.Transaction.{Transaction, header_callback, read_callback, write_callback}
use iexapitest.Http.Connection.{construct}

-- VERIFY_THROW_NETWORK_ERROR
unfoldable pub is_network_error : CurlCode → Bool
is_network_error recv_error = true
is_network_error send_error = true
is_network_error could_not_connect = true
is_network_error could_not_resolve_proxy = true
is_network_error could_not_resolve_host = true
is_network_error operation_timedout = true
is_network_error _ = false

-- VERIFY_THROW_SSL_CERT_VALID
pub is_certificate_error : CurlCode → Bool
is_certificate_error ssl_certproblem = true
is_certificate_error ssl_cipher = true
is_certificate_error ssl_cacert = true
is_certificate_error ssl_cacert_badfile = true
is_certificate_error _ = false

-- The handlers of `Perform`, the first that fits. An HTTPException is a NetworkException.
unfoldable pub handle_failure : Exception → Exception
handle_failure e =
    if is_ssl e
    then ssl_certificate_exception (codes "HTTP operation failed, certificate is not valid")
    else if is_network e
    then e
    else http_exception (codes "HTTP operation failed")

-- `try { … } catch …` around a body whose state stays as the body left it.
abbrev caught {ℓ} : {S A : Type ℓ} → Result A × S → Result A × S
caught (ok a, s) = (ok a, s)
caught (err e, s) = (err (handle_failure e), s)
caught (halt f, s) = (halt f, s)

-- The data that `PerformGet` builds.
abbrev pub get_data : Text → HttpTransactionData
get_data address = record {
  request = record {
    method = HttpMethod.get;
    url = address;
    body = none;
    headers = [];
    form_data = [];
    ca_cert_bundle = none;
  };
  response = record { body = some []; headers = []; status = 204 };
  read_timeout_sec = 0;
  connection_timeout_sec = 0;
}

-- What is in the storage, an empty text where there is none.
abbrev pub storage : Option Text → Text
storage none = []
storage (some written) = written

-- The condition of ASSERT_THROW_HTTP_SUCCEED as its text
abbrev pub getinfo_failed : Text
getinfo_failed =
    codes "CURLE_OK == curl_easy_getinfo(curl_handle, CURLINFO_RESPONSE_CODE, "
    ++ codes "&httpTransaction.response.status_code) FAILED"

module _ (C : Curl) where
  open C use {Handle, strerror, response_code}

  run_callback : Callback → Exec (Transaction Handle) (Unit {0})
  unfolding read_callback write_callback header_callback
  run_callback (reads element_size elements_count) =
      read_callback element_size elements_count >>= λ bytes. pure tt
  run_callback (writes bytes element_size elements_count) =
      write_callback bytes element_size elements_count >>= λ n. pure tt
  run_callback (header bytes element_size elements_count) =
      header_callback bytes element_size elements_count >>= λ n. pure tt

  pub run_callbacks : List Callback → Exec (Transaction Handle) (Unit {0})
  unfolding run_callback
  run_callbacks [] = pure tt
  run_callbacks (c ∷ cs) = run_callback c >> run_callbacks cs

  -- The test of `transfer_status`
  check_transfer : CurlCode → Exec (Transaction Handle) (Unit {0})
  check_transfer e_ok = pure tt
  check_transfer code =
      if is_network_error code
      then throw (network_exception (strerror code))
      else if is_certificate_error code
      then throw (ssl_certificate_exception (strerror code))
      else throw (http_exception (codes "CURLE_OK == transfer_status FAILED"))

  set_connection : Handle → Exec (Transaction Handle) (Unit {0})
  set_connection handle t = (ok tt, record t { connection = handle })

  store_status : Option ℕ → Exec (Transaction Handle) (Unit {0})
  store_status none t = throw (http_exception getinfo_failed) t
  store_status (some code) t = (
    ok tt,
    record t {
      http_transaction = record t.http_transaction {
        response = record t.http_transaction.response { status = code };
      };
    },
  )

  -- `ParseResponseHeaders`: the stringstream is read to its end.
  store_headers : Exec (Transaction Handle) (Unit {0})
  store_headers t =
      elim (parse_response_headers t.response_headers_data t.http_transaction.response.headers) [
        | none ↦ (ok tt, t)
        | some headers ↦ (
          ok tt,
          record t {
            response_headers_data = [];
            http_transaction = record t.http_transaction {
              response = record t.http_transaction.response { headers = headers };
            };
          },
        )
      ]

  complete : Exec (Transaction Handle) (Unit {0})
  complete t = (ok tt, record t { completed = true })

  -- What `Perform` does when the transfer is over.
  settle : CurlCode → Handle → Exec (Transaction Handle) (Unit {0})
  unfolding check_transfer set_connection store_status store_headers complete
  settle code handle = do
    set_connection handle
    check_transfer code
    status ← gets (λ t. response_code t.connection)
    store_status status
    store_headers
    complete

  perform_body : Exec (Transaction Handle) (Unit {0})
  unfolding settle run_callbacks
  perform_body t =
      if t.completed
      then (
        err (http_exception (codes "!completed Inapplicable operation: transaction completed!")),
        t,
      )
      else let (callbacks, code, handle) = C.perform t.connection in
        (run_callbacks callbacks >> settle code handle) t

  unfoldable pub perform : Exec (Transaction Handle) (Unit {0})
  unfolding perform_body
  perform t = caught (perform_body t)

  -- The test of the status behind `Perform`
  checked_response : Result (Unit {0}) × Transaction Handle → Result Text
  checked_response (err e, t) = err e
  checked_response (halt f, t) = halt f
  checked_response (ok u, t) =
      let code = t.http_transaction.response.status in
      let written = storage t.http_transaction.response.body in
      if ltb code 200 || leb 300 code
      then err (
          http_exception
            (codes "server response is " ++ (to_decimal code ++ (codes " " ++ written))))
      else ok written

  perform_constructed : Result (Transaction Handle) → Result Text
  unfolding checked_response perform
  perform_constructed (ok t) = checked_response (perform t)
  perform_constructed (err e) = err e
  perform_constructed (halt f) = halt f

  unfoldable pub perform_get : Text → Result Text
  unfolding perform_constructed
  perform_get address = perform_constructed (construct C (get_data address))
