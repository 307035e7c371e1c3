-- ===== src/Http/Perform/Outcomes.antt =====
-- How a GET ends, for every way in which libcurl's transfer can end.
use iexapitest.Base.{
  Bool-cases, Exception, List, Option, Option-cases, Result, Text, [], and_then, ap, append-nil,
  append_assoc, arith, codes, err, false, halt, http_exception, if◌then◌else◌, inl, inr, leb, ltb,
  network_exception, none, ok, refl, some, ssl_certificate_exception, take, to_decimal, true, ℕ,
  ◌++◌, ◌>>◌, ◌||◌, ◌∷◌, ◌≡◌,
}
use iexapitest.Http.Types.{is_success}
use iexapitest.Http.Curl.{Callback, Curl, CurlCode, e_ok, header, reads, writes}
use iexapitest.Http.Headers.Parsing.{parse_response_headers-Reads}
use iexapitest.Http.Transaction.{Transaction, header_callback}
use iexapitest.Http.Transaction.Upload.{room}
use iexapitest.Http.Connection.{construct}
use iexapitest.Http.Perform.{
  caught, checked_response, get_data, getinfo_failed, handle_failure, is_certificate_error,
  is_network_error, perform, perform_get, run_callbacks, settle, store_headers,
}

-- The bytes that curl hands to `Write`, in the order of the callbacks.
unfoldable pub body_of : List Callback → List ℕ
body_of [] = []
body_of (reads es ec ∷ cs) = body_of cs
body_of (header bytes es ec ∷ cs) = body_of cs
body_of (writes bytes es ec ∷ cs) = take (room (es, ec)) bytes ++ body_of cs

-- libcurl reads nothing from a request that uploads nothing.
abbrev pub ReadsNothing : List Callback → Type 0
ReadsNothing [] = Unit
ReadsNothing (reads es ec ∷ cs) = ⊥
ReadsNothing (header bytes es ec ∷ cs) = ReadsNothing cs
ReadsNothing (writes bytes es ec ∷ cs) = ReadsNothing cs

module _ (C : Curl) where
  -- The transaction has received `w`, and is still to be completed.
  abbrev Received : List ℕ → Transaction C.Handle → Type 0
  Received w t = (t.http_transaction.response.body ≡ some w) × (t.completed ≡ false)

  run_callbacks-Received :
      (cs : List Callback) (t : Transaction C.Handle) (w : List ℕ)
      → ReadsNothing cs
      → Received w t
      → (t' : Transaction C.Handle) × (run_callbacks C cs t ≡ (ok tt, t'))
        × Received (w ++ body_of cs) t'
  unfolding run_callbacks body_of
  run_callbacks-Received [] t w h r = (t, refl, (rw append-nil r.0, r.1))
  run_callbacks-Received (reads es ec ∷ cs) t w h r = absurd h
  run_callbacks-Received (header bytes es ec ∷ cs) t w h r =
      run_callbacks-Received cs (header_callback bytes es ec t).1 w h r
  run_callbacks-Received (writes bytes es ec ∷ cs) t w h r =
      rw (← append_assoc w (take (room (es, ec)) bytes) (body_of cs))
        (run_callbacks-Received cs _ (w ++ take (room (es, ec)) bytes) h (rw r.0, r.1))

  -- What `PerformGet` owes to its caller, from the end of the transfer.
  pub expected : CurlCode → Option ℕ → List ℕ → Result Text
  expected e_ok none body = err (http_exception getinfo_failed)
  expected e_ok (some code) body =
      if is_success code
      then ok body
      else err
          (http_exception (codes "server response is " ++ (to_decimal code ++ (codes " " ++ body))))
  expected code status body =
      if is_network_error code
      then err (network_exception (C.strerror code))
      else if is_certificate_error code
      then err (ssl_certificate_exception (codes "HTTP operation failed, certificate is not valid"))
      else err (http_exception (codes "CURLE_OK == transfer_status FAILED"))

  construct-Received :
      (address : Text) (t : Transaction C.Handle)
      → construct C (get_data address) ≡ ok t
      → Received [] t
  unfolding construct
  construct-Received address t built = ground arith

  status_test :
      (status : ℕ) (w : List ℕ) (e : Exception)
      → (if ltb status 200 || leb 300 status then err e else ok w)
        ≡ (if is_success status then Result.ok w else err e)
  unfolding is_success
  status_test status w e = ground arith

  finish :
      (code : CurlCode) (handle : C.Handle) (t : Transaction C.Handle) (w : List ℕ)
      → Received w t
      → checked_response C (caught (settle C code handle t))
        ≡ expected code (C.response_code handle) w
  unfolding checked_response settle expected is_network_error is_certificate_error is_success
      handle_failure
  finish e_ok handle t w r = elim (Option-cases (C.response_code handle)) [
    | inl e ↦ rw (checked_response, settle, expected, e)
    | inr (status, e) ↦
        let (h, parsed, _) =
          parse_response_headers-Reads t.response_headers_data
            t.http_transaction.response.headers in
        rw (e, store_headers, parsed, r.0) (status_test status w _)
  ]
  finish code handle t w r = ground arith

  perform_lem :
      (t : Transaction C.Handle)
      → t.completed ≡ false
      → perform C t
        ≡ caught (
            (run_callbacks C (C.perform t.connection).0
                >> settle C (C.perform t.connection).1 (C.perform t.connection).2)
              t)
  unfolding perform
  perform_lem t h = simp h

  -- A GET that was constructed returns the bytes of the response in order if the transfer and the
  -- status are good, and otherwise throws what the code or the status calls for.
  pub perform_get-expected :
      (address : Text) (t : Transaction C.Handle)
      → construct C (get_data address) ≡ ok t
      → ReadsNothing (C.perform t.connection).0
      → perform_get C address ≡ (
          let (callbacks, code, handle) = C.perform t.connection in
          expected code (C.response_code handle) (body_of callbacks))
  unfolding perform_get
  perform_get-expected address t built quiet =
      let (t', run, r) =
        run_callbacks-Received (C.perform t.connection).0 t [] quiet
          (construct-Received address t built) in
      rw (perform_get, built, perform_lem t (construct-Received address t built).1, run)
        (finish (C.perform t.connection).1 (C.perform t.connection).2 t'
          (body_of (C.perform t.connection).0) r)

  settle-completed :
      (code : CurlCode) (handle : C.Handle) (t : Transaction C.Handle)
      → (settle C code handle t).0 ≡ ok tt
      → (settle C code handle t).1.completed ≡ true
  unfolding settle is_network_error is_certificate_error
  settle-completed e_ok handle t h = elim (Option-cases (C.response_code handle)) [
    | inl e ↦ cc (
        let x : (settle C e_ok handle t).0 ≡ err (http_exception getinfo_failed) = rw (settle, e) in
        x)
    | inr (status, e) ↦
        let (h, parsed, _) =
          parse_response_headers-Reads t.response_headers_data
            t.http_transaction.response.headers in
        rw (settle, e, store_headers, parsed)
  ]
  settle-completed code handle t h = ground arith

  abbrev pub finished : Exception
  finished = http_exception (codes "!completed Inapplicable operation: transaction completed!")

  perform_again : (t : Transaction C.Handle) → t.completed ≡ true → perform C t ≡ (err finished, t)
  unfolding perform handle_failure
  perform_again t h = simp h

  caught_ok :
      (x : Result (Unit {0}) × Transaction C.Handle)
      → (caught x).0 ≡ ok tt
      → (x.0 ≡ ok tt) × ((caught x).1 ≡ x.1)
  caught_ok (ok u, t) h = (h, refl)
  caught_ok (err e, t) h = cc
  caught_ok (halt f, t) h = cc

  settle_after :
      (r : Result (Unit {0})) (code : CurlCode) (handle : C.Handle) (t : Transaction C.Handle)
      → (caught (and_then r (λ _. settle C code handle) t)).0 ≡ ok tt
      → (caught (and_then r (λ _. settle C code handle) t)).1.completed ≡ true
  settle_after (ok u) code handle t h =
      let (run, same) = caught_ok (settle C code handle t) h in
      rw same (settle-completed code handle t run)
  settle_after (err e) code handle t h = cc
  settle_after (halt f) code handle t h = cc

  perform-completed :
      (t : Transaction C.Handle) → (perform C t).0 ≡ ok tt → (perform C t).1.completed ≡ true
  perform-completed t h = elim (Bool-cases t.completed) [
    | inl done ↦
        cc (let x : (perform C t).0 ≡ err finished = ap (λ r. r.0) (perform_again t done) in x)
    | inr fresh ↦ rw (perform_lem t fresh) (
        settle_after (run_callbacks C (C.perform t.connection).0 t).0 (C.perform t.connection).1
          (C.perform t.connection).2 (run_callbacks C (C.perform t.connection).0 t).1
          (rw (perform_lem t fresh) at h))
  ]

  -- A transaction is good for one transfer: after a `Perform` that succeeded, a second one throws and
  -- leaves it as it is.
  pub perform_twice :
      (t : Transaction C.Handle)
      → (perform C t).0 ≡ ok tt
      → perform C (perform C t).1 ≡ (
        err (http_exception (codes "!completed Inapplicable operation: transaction completed!")),
        (perform C t).1,
      )
  perform_twice t h = perform_again (perform C t).1 (perform-completed t h)
