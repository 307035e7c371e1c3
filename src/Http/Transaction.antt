-- ===== src/Http/Transaction.antt =====
-- http_transaction.{h,cpp}: the state of an HTTPTransaction and its callbacks.
pub mod Upload
use iexapitest.Base.{
  Bool, Exec, List, Option, Result, Text, [], assertion, codes, err, halt, if◌then◌else◌, ltb, map,
  none, ok, some, take, ℕ, ◌%◌, ◌*◌, ◌++◌, ◌+◌, ◌-◌, ◌==◌,
}
use iexapitest.Http.Streams.{Stream, read, seek_begin, seek_end, size_mod, tell}
use iexapitest.Http.Types.{HttpMethod, HttpTransactionData}
use iexapitest.Http.Types

-- `Handle` is curl's. `headers` is the curl_slist, and `response_headers_data` what is still to be
-- read from the stringstream of that name.
pub record Transaction (Handle : Type 0) : Type 0 where
  pub http_transaction : HttpTransactionData
  pub upload_data_size : ℕ
  pub headers : List Text
  pub response_headers_data : Text
  pub form_data : List (Text × Text)
  pub connection : Handle
  pub completed : Bool

unfoldable pub get_method_str : HttpMethod → Text
get_method_str HttpMethod.post = codes "POST"
get_method_str HttpMethod.get = codes "GET"
get_method_str HttpMethod.put = codes "PUT"
get_method_str HttpMethod.del = codes "DELETE"

-- The size, and the stream moved back to its beginning.
calculate_size : Option Stream → ℕ × Option Stream
calculate_size none = (0, none)
calculate_size (some s) = let s' = seek_end s in (tell s', some (seek_begin s'))

unfoldable pub calculate_upload_data_size : HttpTransactionData → ℕ × HttpTransactionData
unfolding calculate_size
calculate_upload_data_size d =
    let (size, body) = calculate_size d.request.body in
    (size, record d { request = record d.request { body = body } })

-- One string `name: value` for each header, in the order of the map.
unfoldable pub init_headers : HttpTransactionData → List Text
init_headers d = map (λ header. header.0 ++ codes ": " ++ header.1) d.request.headers

unfoldable pub init_form_data : HttpTransactionData → List (Text × Text)
init_form_data d = map (λ field. (field.0, field.1)) d.request.form_data

-- The bytes that `Read` puts into curl's buffer; their number is its result.
read_from : Option Stream → ℕ → ℕ → ℕ → Result (List ℕ × Option Stream)
read_from none upload_data_size element_size elements_count = halt assertion
read_from (some s) upload_data_size element_size elements_count =
    let max_data_size = elements_count * element_size % size_mod in
    let bytes_left = (upload_data_size + size_mod - tell s) % size_mod in
    let read_size = if ltb max_data_size bytes_left then max_data_size else bytes_left in
    let (bytes, s') = read read_size s in
    if read_size == 0 then ok ([], some s) else ok (bytes, some s')

append_written : List ℕ → Option Text → Option Text
append_written bytes none = none
append_written bytes (some written) = some (written ++ bytes)

module _ {Handle : Type 0} where
  pub with_body : Option Stream → Transaction Handle → Transaction Handle
  with_body body t = record t {
    http_transaction = record t.http_transaction {
      request = record t.http_transaction.request { body = body };
    };
  }

  store_body :
      Result (List ℕ × Option Stream) → Transaction Handle → Result (List ℕ) × Transaction Handle
  store_body (ok (bytes, body)) t = (ok bytes, with_body body t)
  store_body (err e) t = (err e, t)
  store_body (halt f) t = (halt f, t)

  -- `Read`, behind `ReadCallback`
  unfoldable pub read_callback : ℕ → ℕ → Exec (Transaction Handle) (List ℕ)
  unfolding read_from with_body store_body
  read_callback element_size elements_count t =
      store_body
        (read_from t.http_transaction.request.body t.upload_data_size element_size elements_count) t

  -- `Write`, behind `WriteCallback`
  unfoldable pub write_callback : List ℕ → ℕ → ℕ → Exec (Transaction Handle) ℕ
  unfolding append_written
  write_callback bytes element_size elements_count t =
      let data_size = elements_count * element_size % size_mod in
      let body = append_written (take data_size bytes) t.http_transaction.response.body in
      (
        ok data_size,
        record t {
          http_transaction = record t.http_transaction {
            response = record t.http_transaction.response { body = body };
          };
        },
      )

  -- `ProcessResponseHeaders`, behind `HeaderCallback`
  unfoldable pub header_callback : List ℕ → ℕ → ℕ → Exec (Transaction Handle) ℕ
  header_callback bytes element_size elements_count t =
      let headers_data_size = elements_count * element_size % size_mod in
      (
        ok headers_data_size,
        record t {
          response_headers_data = t.response_headers_data ++ take headers_data_size bytes;
        },
      )
