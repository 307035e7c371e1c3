-- ===== src/Http/Certificates.antt =====
-- http_transaction.cpp: Process_SSL_CTX, behind SSL_CTX_Callback, which puts the certificates of the
-- bundle into OpenSSL's store. OpenSSL is a parameter.
pub mod Outcomes
use iexapitest.Base.{
  Bool, Exception, Exec, List, Option, [], bad_alloc, codes, err, if◌then◌else◌, ios_failure,
  is_bad_alloc, lift, ltb, negsuc, none, ok, pos, pure, some, true, try_catch, uncaught, ℕ, ℤ, ◌%◌,
  ◌&&◌, ◌-◌, ◌==◌, ◌>>=◌, ◌>>◌, ◌^◌, ◌∷◌,
}
use iexapitest.Http.Streams.{Stream, read, seek_begin, seek_end, tell}
use iexapitest.Http.Curl.{CurlCode, e_ok, out_of_memory, ssl_cacert_badfile, ssl_certproblem}

-- The mask of `exceptions()`. A stream here fails by its failbit.
pub record Mask : Type 0 where
  pub failbit : Bool
  pub badbit : Bool

abbrev pub failures : Mask
failures = record { failbit = true; badbit = true }

-- `ca_cert_bundle`, an std::istream with its mask
pub record Bundle : Type 0 where
  pub stream : Stream
  pub mask : Mask

abbrev pub stream_failure : Exception
stream_failure = ios_failure (codes "basic_ios::clear")

-- An X509_INFO; a null pointer is `none`.
pub record Info (Certificate Crl : Type 0) : Type 0 where
  pub x509 : Option Certificate
  pub crl : Option Crl

-- What is called of OpenSSL. `read_infos` is PEM_X509_INFO_read_bio on BIO_new_mem_buf(buffer, length).
-- `allocates` says for which sizes a vector of char can be made.
pub record OpenSsl : Type 1 where
  pub Certificate : Type 0
  pub Crl : Type 0
  pub Store : Type 0
  pub allocates : ℕ → Bool
  pub read_infos : List ℕ → ℤ → Option (List (Info Certificate Crl))
  pub add_cert : Certificate → Store → Store
  pub add_crl : Crl → Store → Store

-- `static_cast<int>` of a size_t
unfoldable pub to_int : ℕ → ℤ
to_int n = let m = n % 2 ^ 32 in if ltb m (2 ^ 31) then pos m else negsuc (2 ^ 32 - m - 1)

module _ (O : OpenSsl) where
  open O use {Certificate, Crl, Store, allocates, read_infos}

  -- The bundle, and the store of the SSL_CTX
  pub record Handshake : Type 0 where
    pub bundle : Bundle
    pub cert_store : Store

  -- The sentry and `setstate` throw where the mask says so.
  raise_failure : {A : Type 0} → A → Exec Handshake A
  raise_failure a h =
      if h.bundle.stream.failed && h.bundle.mask.failbit then (err stream_failure, h) else (ok a, h)

  on_stream : {A : Type 0} → (Stream → A × Stream) → Exec Handshake A
  unfolding raise_failure
  on_stream f h =
      let (a, s) = f h.bundle.stream in
      raise_failure a (record h { bundle = record h.bundle { stream = s } })

  -- `exceptions(mask)`
  set_exceptions : Mask → Exec Handshake (Unit {0})
  unfolding raise_failure
  set_exceptions mask h = raise_failure tt (record h { bundle = record h.bundle { mask = mask } })

  -- The scope of `raii_flags`, whose destructor restores the mask
  with_flags : {A : Type 0} → Exec Handshake A → Exec Handshake A
  unfolding set_exceptions
  with_flags m h = let (r, h') = m h in (uncaught (set_exceptions h.bundle.mask) >> lift r) h'

  -- `std::vector<char> ca_buf(ca_data_size)`
  make_buffer : ℕ → Exec Handshake (Unit {0})
  make_buffer size h = if allocates size then (ok tt, h) else (err bad_alloc, h)

  -- The bytes of the bundle
  read_bundle : Exec Handshake (List ℕ × ℕ)
  unfolding on_stream make_buffer
  read_bundle = do
    on_stream (λ s. (tt, seek_end s))
    ca_data_size ← on_stream (λ s. (tell s, s))
    on_stream (λ s. (tt, seek_begin s))
    make_buffer ca_data_size
    ca_buf ← if ca_data_size == 0 then pure [] else on_stream (read ca_data_size)
    pure (ca_buf, ca_data_size)

  add_crl_of : Option Crl → Store → Store
  add_crl_of none store = store
  add_crl_of (some crl) store = O.add_crl crl store

  -- The body of the loop over the infos
  add_info : Info Certificate Crl → Store → Store
  unfolding add_crl_of
  add_info info store =
      add_crl_of info.crl (elim info.x509 [ none ↦ store | some x509 ↦ O.add_cert x509 store ])

  unfoldable pub add_infos : List (Info Certificate Crl) → Store → Store
  unfolding add_info
  add_infos [] store = store
  add_infos (info ∷ infos) store = add_infos infos (add_info info store)

  -- What is done with the infos that OpenSSL read.
  store_infos : Option (List (Info Certificate Crl)) → Exec Handshake CurlCode
  unfolding add_infos
  store_infos none h = (ok ssl_cacert_badfile, h)
  store_infos (some []) h = (ok ssl_cacert_badfile, h)
  store_infos (some (info ∷ infos)) h =
      (ok e_ok, record h { cert_store = add_infos (info ∷ infos) h.cert_store })

  install_certificates : Exec Handshake CurlCode
  unfolding set_exceptions read_bundle store_infos to_int
  install_certificates = do
    set_exceptions failures
    (ca_buf, ca_data_size) ← read_bundle
    store_infos (read_infos ca_buf (to_int ca_data_size))

  caught : Exception → Exec Handshake CurlCode
  caught e = pure (if is_bad_alloc e then out_of_memory else ssl_certproblem)

  unfoldable pub process_ssl_ctx : Exec Handshake CurlCode
  unfolding with_flags install_certificates caught
  process_ssl_ctx = try_catch (with_flags install_certificates) (λ e. true) caught
