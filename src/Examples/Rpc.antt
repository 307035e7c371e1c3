-- ===== src/Examples/Rpc.antt =====
-- rpc/ with a server that cannot be reached, and with one whose pages are no JSON.
use iexapitest.Base.{
  List, Text, [], codes, err, find, length, network_exception, none, ok, refl, some, text_eq,
  to_decimal, ℕ, ◌+◌, ◌∷◌, ◌≡◌,
}
use iexapitest.Http.Curl.{Curl, could_not_connect}
use iexapitest.Http.Perform.{handle_failure, is_network_error, perform, perform_get}
use iexapitest.Http.Connection.{connection_options, construct}
use iexapitest.Config.PropertyTree.{Integers, Lexical}
use iexapitest.Rpc.Client.{get_http_company_info, json_parser_error}
use iexapitest.Rpc.Service.{Call, call_all, new_service, starts, stops}
use iexapitest.Rpc.Service.Calls.{Consistent, call_all_lem, owned, starts_made}
use iexapitest.Rpc.Client.Failures.{address_of, get_http_company_info_failed, request_type}
use iexapitest.Examples.Config.{cast, start, store}
use iexapitest.Examples.Server.{server}
use iexapitest.Config.Daemon.{get_iex_tocken, get_iex_url, path_of}
use iexapitest.Config.Store.{get_string}
use iexapitest.Http.Headers.{parse_response_headers}

abbrev down : Curl
down = record server { perform = λ handle. ([], could_not_connect, handle) }

abbrev casts : Integers
casts = record { int = cast; int64 = cast }

abbrev whole : Lexical ℕ
whole = record { show = λ n. to_decimal n; read = λ text. none }

down_throws :
    (address : Text) → perform_get down address ≡ err (network_exception (codes "no error"))
unfolding perform_get perform construct connection_options is_network_error handle_failure
down_throws address = refl

get_http_company_info_failed_example :
    get_http_company_info down store casts whole (codes "fb") [] [] start
    ≡ (err (network_exception (codes "no error")), start)
get_http_company_info_failed_example =
    get_http_company_info_failed down store casts whole (codes "fb") [] [] start
      (network_exception (codes "no error")) refl
      (down_throws (address_of down store casts whole start.root (codes "fb") (request_type [] [])))

no_json :
    (get_http_company_info server store casts whole (codes "fb") [] [] start).0
    ≡ err json_parser_error
unfolding get_http_company_info perform_get perform construct get_iex_url path_of text_eq get_string
    get_iex_tocken connection_options parse_response_headers find
no_json = refl

abbrev restarted : List Call
restarted = starts 5 (some 1) ∷ starts 5 (some 2) ∷ stops ∷ starts 5 (some 3) ∷ []

two_servers : length (call_all restarted new_service).1.leaked ≡ 1
unfolding call_all
two_servers = refl

call_all_lem_example :
    let (r, s) = call_all restarted new_service in
    (r ≡ ok tt) × Consistent s × (length s.leaked + owned s.grpc_server ≡ 2)
unfolding starts_made
call_all_lem_example = call_all_lem restarted
