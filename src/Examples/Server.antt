-- ===== src/Examples/Server.antt =====
-- A libcurl over a server that answers every transfer alike.
use iexapitest.Base.{List, Text, [], codes, some, ◌∷◌}
use iexapitest.Http.Curl.{Curl, CurlOption, e_ok, header, writes}

abbrev pub answer : Text
answer = codes "{}"

abbrev pub head : Text
head = codes "HTTP/1.1 200 OK\n"

abbrev pub server : Curl
server = record {
  Handle = List CurlOption;
  easy_init = some [];
  setopt = λ handle option. some (option ∷ handle);
  perform = λ handle. (header head 1 16 ∷ writes answer 1 2 ∷ [], e_ok, handle);
  response_code = λ handle. some 200;
  strerror = λ code. codes "no error";
}
