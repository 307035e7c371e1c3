-- ===== src/Http/Certificates/Outcomes.antt =====
-- What Process_SSL_CTX answers, and what it leaves of the bundle and the store.
use iexapitest.Base.{
  Bool, List, Option, Result, [], false, halt, if◌then◌else◌, length, none, ok, some, terminated,
  true, ℕ, ◌∷◌, ◌≡◌,
}
use iexapitest.Http.Curl.{CurlCode, e_ok, out_of_memory, ssl_cacert_badfile, ssl_certproblem}
use iexapitest.Http.Certificates.{Handshake, Info, Mask, OpenSsl, add_infos, to_int}
use iexapitest.Http.Streams.{Stream}

abbrev at_start : List ℕ → Stream
at_start content = record { content = content; pos = 0; failed = false }

module _ (O : OpenSsl) where
  open O use {Certificate, Crl, Store, allocates, read_infos}

  -- By what OpenSSL reads of the bytes
  abbrev pub installed : Option (List (Info Certificate Crl)) → Store → CurlCode × Store
  installed none store = (ssl_cacert_badfile, store)
  installed (some []) store = (ssl_cacert_badfile, store)
  installed (some (info ∷ infos)) store = (e_ok, add_infos O (info ∷ infos) store)

  -- From a bundle whose stream has not failed
  abbrev pub from_content : List ℕ → Store → CurlCode × Store
  from_content content store =
      if allocates (length content)
      then installed (read_infos content (to_int (length content))) store
      else (out_of_memory, store)

  -- From any bundle, by whether its stream has failed, and whether failures are thrown
  abbrev pub answer : Bool → Bool → List ℕ → Store → Result CurlCode × Store
  answer true true content store = (halt terminated, store)
  answer true false content store = (ok ssl_certproblem, store)
  answer false _ content store =
      let (code, store') = from_content content store in (ok code, store')

  abbrev Answers : Result CurlCode × Handshake O → Result CurlCode × Store → Mask → List ℕ → Type 0
  Answers (r, h) (r', store) mask content =
      (r ≡ r')
      × (h.cert_store ≡ store)
      × (h.bundle.mask ≡ mask)
      × (h.bundle.stream.content ≡ content)

  abbrev handshake : List ℕ → ℕ → Bool → Mask → Store → Handshake O
  handshake content pos' failed mask store = record {
    bundle = record {
      stream = record { content = content; pos = pos'; failed = failed };
      mask = mask;
    };
    cert_store = store;
  }
