-- ===== src/Examples/Http.antt =====
-- common_utils/http_transaction.cpp against a small server.
use mathlib.Core.List.{reverse}
use iexapitest.Http.Certificates.{Handshake, OpenSsl}
use iexapitest.Base.{
  List, Text, TextMap, [], arith, codes, emplace, err, false, find, length, lookup, ltb, map, none,
  ok, refl, some, take, text_eq, ℕ, ◌++◌, ◌∷◌, ◌≡◌, ◌≤◌,
}
use iexapitest.Http.Types.{HttpTransactionData}
use iexapitest.Http.Curl.{CurlOption, e_ok, header, writes}
use iexapitest.Http.Streams.{Stream}
use iexapitest.Examples.Server.{answer, head, server}
use iexapitest.Http.Connection.Options.{read_timeout_bounds}
use iexapitest.Http.Headers.Parsing.{Reads, lines, parse_response_headers-Reads}
use iexapitest.Http.Connection.Asked.{Asked}
use iexapitest.Http.Transaction.{Transaction}
use iexapitest.Http.Transaction.Upload.{Uploads, deliver, deliver-left, left}
use iexapitest.Http.Perform.Outcomes.{
  body_of, expected, finished, perform_get-expected, perform_twice,
}
use iexapitest.Http.Connection.{
  connection_options, connection_timeout, construct, init_connection, read_timeout,
}
use iexapitest.Http.Perform.{get_data, perform, perform_get}
use iexapitest.Http.Headers.{is_blank, newline, parse_response_headers, trim}
use iexapitest.Http.Headers.RoundTrip.{parse_response_headers-print_headers, print_headers}

trim_both : trim (codes "  a b \r") ≡ codes "a b"
unfolding trim
trim_both = refl

abbrev host : TextMap Text
host = (codes "Host", codes "iex") ∷ []

parse_two :
    parse_response_headers (codes "HTTP/1.1 200 OK\nA: 1\nA: 2\n") []
    ≡ some ((codes "A", codes "1") ∷ [])
unfolding parse_response_headers find emplace text_eq
parse_two = refl

parse_response_headers-Reads_example :
    (h : TextMap Text) × (parse_response_headers (codes "A: 1\n") host ≡ some h)
    × Reads host (lines (codes "A: 1\n")) h
parse_response_headers-Reads_example = parse_response_headers-Reads (codes "A: 1\n") host

parse_response_headers-print_headers_example :
    (h : TextMap Text) × (parse_response_headers
        (codes "HTTP/1.1 200 OK" ++ newline ∷ (print_headers host ++ 13 ∷ newline ∷ []))
        []
      ≡ some h)
    × ((name : Text) → lookup name h ≡ lookup name host)
unfolding is_blank
parse_response_headers-print_headers_example =
    parse_response_headers-print_headers (codes "HTTP/1.1 200 OK") host (omega arith) (omega arith)
      ((omega arith, omega arith, refl, refl), (omega arith, refl, refl), tt)

abbrev request : HttpTransactionData
request = get_data (codes "https://sandbox.iexapis.com")

read_timeout_bounds_example :
    (1 ≤ read_timeout request)
    × (read_timeout request ≤ 300)
    × (1 ≤ connection_timeout request)
    × (connection_timeout request ≤ 50)
    × (1 ≤ request.read_timeout_sec
        → request.read_timeout_sec ≤ 300
        → read_timeout request ≡ request.read_timeout_sec)
    × (1 ≤ request.connection_timeout_sec
        → request.connection_timeout_sec ≤ 50
        → connection_timeout request ≡ request.connection_timeout_sec)
read_timeout_bounds_example = read_timeout_bounds request

abbrev ready : Transaction (List CurlOption)
ready = record {
  http_transaction = request;
  upload_data_size = 0;
  headers = [];
  response_headers_data = [];
  form_data = [];
  connection = [];
  completed = false;
}

abbrev upload : Stream
upload = record { content = codes "price"; pos = 0; failed = false }

abbrev uploading : Transaction (List CurlOption)
uploading = record ready {
  http_transaction = record request { request = record request.request { body = some upload } };
  upload_data_size = 5;
}

uploading-Uploads : Uploads uploading upload
uploading-Uploads = record {
  body = refl;
  whole = refl;
  size = refl;
  fits = omega arith;
  inside = omega arith;
}

deliver-left_example :
    ((deliver ((1, 3) ∷ (1, 3) ∷ []) uploading).0 ≡ ok (take 6 (codes "price")))
    × (length (left upload) ≤ 6 → (deliver ((1, 3) ∷ (1, 3) ∷ []) uploading).0 ≡ ok (codes "price"))
deliver-left_example = deliver-left ((1, 3) ∷ (1, 3) ∷ []) uploading upload uploading-Uploads

-- The transaction that a GET is made with.
getting : Transaction (List CurlOption)
unfolding connection_options
getting = record ready { connection = reverse (connection_options request 0 [] []) }

getting-constructed : construct server request ≡ ok getting
unfolding getting construct connection_options init_connection
getting-constructed = refl

perform_get-expected_example :
    perform_get server (codes "https://sandbox.iexapis.com")
    ≡ expected server e_ok (some 200) (body_of (header head 1 16 ∷ writes answer 1 2 ∷ []))
perform_get-expected_example =
    perform_get-expected server (codes "https://sandbox.iexapis.com") getting getting-constructed tt

performed : (perform server getting).0 ≡ ok tt
unfolding perform parse_response_headers find getting
performed = refl

perform_twice_example :
    perform server (perform server getting).1 ≡ (err (finished server), (perform server getting).1)
perform_twice_example = perform_twice server getting performed

-- An OpenSSL that reads a certificate and a list of each byte
abbrev bytewise : OpenSsl
bytewise = record {
  Certificate = ℕ;
  Crl = ℕ;
  Store = List ℕ;
  allocates = λ size. ltb size 100;
  read_infos = λ bytes size. some (map (λ byte. record { x509 = some byte; crl = none }) bytes);
  add_cert = λ certificate added. certificate ∷ added;
  add_crl = λ crl added. added;
}

-- A bundle that stands at its end
abbrev bundle_of : List ℕ → Handshake bytewise
bundle_of content = record {
  bundle = record {
    stream = record { content = content; pos = length content; failed = false };
    mask = record { failbit = false; badbit = false };
  };
  cert_store = [];
}
