-- ===== src/Http/Connection/Options.antt =====
-- What a connection is set up with.
use iexapitest.Base.{
  Exception, List, Result, [], arith, codes, err, http_exception, none, ok, some, ◌∷◌, ◌≡◌, ◌≤◌,
  ◌⊎◌,
}
use iexapitest.Http.Connection.Asked.{Asked}
use iexapitest.Http.Types.{HttpTransactionData}
use iexapitest.Http.Curl.{Curl, CurlOption}
use iexapitest.Http.Transaction.{Transaction}
use iexapitest.Http.Connection.{connection_timeout, read_timeout}

-- Whatever the caller asks for, a transfer waits between 1 and 300 seconds and a connection between 1
-- and 50, and a request inside these bounds is granted.
pub read_timeout_bounds :
    (d : HttpTransactionData)
    → (1 ≤ read_timeout d)
      × (read_timeout d ≤ 300)
      × (1 ≤ connection_timeout d)
      × (connection_timeout d ≤ 50)
      × (1 ≤ d.read_timeout_sec → d.read_timeout_sec ≤ 300 → read_timeout d ≡ d.read_timeout_sec)
      × (1 ≤ d.connection_timeout_sec
          → d.connection_timeout_sec ≤ 50
          → connection_timeout d ≡ d.connection_timeout_sec)
unfolding read_timeout connection_timeout
read_timeout_bounds d = ground arith

module _ (C : Curl) where
  -- Handles that libcurl took all of the options on.
  pub Configured : C.Handle → List CurlOption → C.Handle → Type 0
  Configured handle [] final = handle ≡ final
  Configured handle (option ∷ options) final =
      (next : C.Handle) × (C.setopt handle option ≡ some next) × Configured next options final

  -- libcurl refuses one of the options, and took those in front of it.
  pub Refuses : C.Handle → List CurlOption → Type 0
  Refuses handle [] = ⊥
  Refuses handle (option ∷ options) =
      (C.setopt handle option ≡ none)
      ⊎ ((next : C.Handle) × (C.setopt handle option ≡ some next) × Refuses next options)

  -- The exception of a set-up that failed.
  abbrev pub init_failed : Exception
  init_failed = http_exception (codes "HTTP transaction initialization failed")

  -- There is no handle, or it refuses an option.
  abbrev pub Fails : List CurlOption → Type 0
  Fails options =
      (C.easy_init ≡ none)
      ⊎ ((first : C.Handle) × (C.easy_init ≡ some first) × Refuses first options)

  -- A handle with every option on it, in order, or the one exception for all failures.
  abbrev Connects : Result C.Handle → List CurlOption → Type 0
  Connects r options =
      ((first final : C.Handle) × (C.easy_init ≡ some first)
        × Configured first options final
        × (r ≡ ok final))
      ⊎ ((r ≡ err init_failed) × Fails options)
