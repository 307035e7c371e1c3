-- ===== src/Http/Curl.antt =====
-- libcurl's easy interface as the transaction uses it: an unknown handle, the options that are set
-- on it, and a transfer that makes callbacks and ends with a code.
use iexapitest.Base.{List, Option, Text, ℕ}

pub data CurlOption : Type 0 where
  nosignal noprogress timeout follow_location connect_timeout : ℕ → CurlOption
  url custom_request : Text → CurlOption
  http_header : List Text → CurlOption
  ssl_verify_peer ssl_verify_host : ℕ → CurlOption
  ssl_ctx_function ssl_ctx_data read_function read_data : CurlOption
  infile_size_large upload : ℕ → CurlOption
  http_post : List (Text × Text) → CurlOption
  write_function write_data header_function header_data : CurlOption

-- The codes that the program names, and the others by their number.
pub data CurlCode : Type 0 where
  e_ok recv_error send_error could_not_connect could_not_resolve_proxy : CurlCode
  could_not_resolve_host operation_timedout : CurlCode
  ssl_certproblem ssl_cipher ssl_cacert ssl_cacert_badfile out_of_memory : CurlCode
  other_code : ℕ → CurlCode

-- A callback with its `element_size` and `elements_count`, and the bytes in its buffer.
pub data Callback : Type 0 where
  reads : ℕ → ℕ → Callback
  writes : List ℕ → ℕ → ℕ → Callback
  header : List ℕ → ℕ → ℕ → Callback

pub record Curl : Type 1 where
  pub Handle : Type 0
  -- `curl_easy_init`, `none` for a null pointer
  pub easy_init : Option Handle
  -- `curl_easy_setopt`, `none` for any code but CURLE_OK
  pub setopt : Handle → CurlOption → Option Handle
  -- `curl_easy_perform`: the callbacks in their order, the code, and the handle afterwards
  pub perform : Handle → List Callback × CurlCode × Handle
  -- `curl_easy_getinfo(CURLINFO_RESPONSE_CODE)`
  pub response_code : Handle → Option ℕ
  pub strerror : CurlCode → Text
