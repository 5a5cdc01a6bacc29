-- ===== src/Server/Start/Tests.antt =====
-- A whole request at a concrete text.
use cbank_system.Prelude.{List, [], ◌∷◌, some, none, replicate}
use cbank_system.Text.{Bytes, codes}
use cbank_system.Jwt.Payload.{JwtData}
use cbank_system.Jwt.Payload.Read.{claims_of}
use cbank_system.Server.Http.{Pair, HttpRequest}
use cbank_system.Server.Router.{Route, decode_url, auth, handle_accounts}
use cbank_system.Server.Parser.Cookies.{cookie_header}
use cbank_system.Server.Start.Client.{parsed_request}

-- What the token looks like.
abbrev token_text : Bytes
token_text =
    codes
      "eyJhbGciOiJIUzI1NiIsInR5cCI6IkpXVCJ9.eyJzdWIiOiIxIiwibmFtZSI6IkFuYSIsImV4cCI6NDYwMH0=.VVVVVVVVVVVVVVVVVVVVVVVVVVVVVVVVVVVVVVVVVVU="

abbrev cookies : List Pair
cookies = (codes "token", token_text) ∷ []

abbrev host_header : Pair
host_header = (codes "Host", codes "localhost")

abbrev cookies_header : Pair
cookies_header = (codes "Cookie", cookie_header cookies)

abbrev accounts_request : HttpRequest
accounts_request =
    parsed_request (codes "GET") (codes "/accounts") (codes "HTTP/1.1")
      (host_header ∷ cookies_header ∷ []) cookies

abbrev ana_session : JwtData
ana_session = claims_of (codes "1") (codes "Ana") 4600

abbrev accounts_route : Route
accounts_route = record {
  path = codes "/accounts";
  handler = handle_accounts;
  allowed_methods = some (codes "GET") ∷ none ∷ none ∷ none ∷ [];
  middlewares = some decode_url ∷ some auth ∷ replicate 8 none;
  method_count = 1;
  middleware_count = 2;
}
