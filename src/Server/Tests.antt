-- ===== src/Server/Tests.antt =====
-- The theorems on the server at concrete requests.
use cbank_system.Prelude.{
  ◌≤◌, ◌≡◌, refl, true, List, [], ◌∷◌, ◌++◌, none, some, length, arith, All, replicate, get_or, leb,
  if◌then◌else◌,
}
use cbank_system.Prelude.Ret.{ok, fault}
use cbank_system.Text.{codes, case_eq, to_lower, drop_while}
use cbank_system.Utils.{ltrim}
use cbank_system.Jwt.Payload.{JwtData, no_claims}
use cbank_system.Jwt.Payload.Read.{claims_of}
use cbank_system.Jwt.Token.Tests.{the_token}
use cbank_system.Server.Http.{
  Pair, header_lines, HttpRequest, cookie, find_header, crlf, get_header, get_header_field_name,
}
use cbank_system.Server.Url.{urldecode}
use cbank_system.Server.Url.RoundTrip.{urlencode, urldecode-urlencode, length-urldecode}
use cbank_system.Server.Router.{
  register_route, register_all, init_route_registry, RouteRegistry, Route, handle_home, counted,
  count_filled, new_capacity, get_route,
}
use cbank_system.Server.Router.Registry.{
  HasRoom, answering, register_route-HasRoom, get_route-register_all,
}
use cbank_system.Server.Routes.{routes}
use cbank_system.Server.Parser.{parse_req_headers, parse_req_line, parse_req_cookies, cut_header}
use cbank_system.Server.Parser.RequestLine.{request_line, parse_req_line-request_line}
use cbank_system.Server.Parser.Headers.{
  IsHeader, parse_req_headers-header_lines, parse_req_headers_single,
}
use cbank_system.Server.Parser.Cookies.{IsCookie, cookie_header, parse_req_cookies-cookie_header}

urldecode-urlencode_example : urldecode (urlencode (codes "a&b c=1")) ≡ codes "a&b c=1"
urldecode-urlencode_example = urldecode-urlencode (codes "a&b c=1") (omega arith)

length-urldecode_example : length (urldecode (codes "a%26b")) ≤ length (codes "a%26b")
length-urldecode_example = length-urldecode (codes "a%26b")

abbrev no_request : HttpRequest
no_request = record {
  method = [];
  path = [];
  version = [];
  headers = [];
  body = [];
  authenticated_jwt = no_claims;
  body_query_params_list = [];
  url_query_params_list = [];
  cookies_list = [];
}

abbrev accounts_request : HttpRequest
accounts_request = record no_request {
  method = codes "GET";
  path = codes "/accounts";
  cookies_list = (codes "token", the_token) ∷ [];
}

parse_req_line-request_line_example :
    parse_req_line
      (replicate 512 0)
      (request_line (codes "GET") (codes "/accounts") (codes "HTTP/1.1") ++ (crlf ++ crlf))
      no_request
    ≡ ok (record no_request {
      method = codes "GET";
      path = codes "/accounts";
      version = codes "HTTP/1.1";
    })
parse_req_line-request_line_example =
    parse_req_line-request_line (replicate 512 0) [] (replicate 489 0) (codes "GET")
      (codes "/accounts") (codes "HTTP/1.1") crlf no_request (λ e. cc, λ e. cc, λ e. cc)
      (omega arith, omega arith, omega arith) (omega arith) (omega arith) refl tt tt

abbrev two_cookies : List Pair
two_cookies = (codes "theme", codes "dark") ∷ (codes "token", codes "abc") ∷ []

abbrev cookie_request : HttpRequest
cookie_request = record no_request {
  headers = (codes "cookie", codes "theme=dark; token=abc") ∷ [];
}

two_cookies-IsCookie : All IsCookie two_cookies
unfolding ltrim drop_while
two_cookies-IsCookie = (
  (omega arith, omega arith, omega arith, refl, refl),
  ((omega arith, omega arith, omega arith, refl, refl), tt),
)

cookie_found : get_header cookie_request cookie ≡ some (cookie_header two_cookies)
unfolding get_header find_header case_eq to_lower get_header_field_name
cookie_found = refl

parse_req_cookies-cookie_header_example : parse_req_cookies cookie_request ≡ (
    if leb 2 19
    then ok (record cookie_request {
      headers = cut_header (get_header_field_name cookie) cookie_request.headers;
      cookies_list = two_cookies;
    })
    else fault)
parse_req_cookies-cookie_header_example =
    parse_req_cookies-cookie_header cookie_request two_cookies two_cookies-IsCookie (λ e. cc)
      cookie_found

get_route-register_all_example :
    get_route (register_all (λ n. true) init_route_registry routes) accounts_request
    ≡ ok (answering routes accounts_request)
get_route-register_all_example =
    get_route-register_all (λ n. true) routes accounts_request (λ n. refl)

abbrev one_route : Route
one_route = record {
  path = codes "/x";
  handler = handle_home;
  allowed_methods = some (codes "GET") ∷ none ∷ [];
  middlewares = none ∷ [];
  method_count = 0;
  middleware_count = 0;
}

abbrev one_registered : RouteRegistry
one_registered = record { routes = counted one_route ∷ []; capacity = 8 }

one_route-registered :
    register_route (λ n. true) init_route_registry one_route ≡ some one_registered
unfolding register_route new_capacity
one_route-registered = refl

register_route-HasRoom_example :
    HasRoom one_registered × (one_registered.routes ≡ [] ++ counted one_route ∷ [])
register_route-HasRoom_example =
    register_route-HasRoom (λ n. true) init_route_registry one_registered one_route (omega arith)
      one_route-registered

abbrev ana_session : JwtData
ana_session = claims_of (codes "1") (codes "Ana") 4600

abbrev served_request : HttpRequest
served_request = record accounts_request { authenticated_jwt = ana_session }

abbrev accounts_route : Route
unfolding counted count_filled
accounts_route = counted (get_or routes 1 one_route)

abbrev host_header : Pair
host_header = (codes "Host", codes "x")

abbrev accept_header : Pair
accept_header = (codes "Accept", codes "*/*")

host_header-IsHeader : IsHeader host_header
unfolding ltrim drop_while
host_header-IsHeader =
    (λ e. cc, omega arith, omega arith, omega arith, refl, omega arith, omega arith)

accept_header-IsHeader : IsHeader accept_header
unfolding ltrim drop_while
accept_header-IsHeader =
    (λ e. cc, omega arith, omega arith, omega arith, refl, omega arith, omega arith)

parse_req_headers-header_lines_example :
    parse_req_headers
      (header_lines (host_header ∷ accept_header ∷ []) ++ (crlf ++ codes "body"))
      no_request
    ≡ ok (codes "body", record no_request { headers = host_header ∷ accept_header ∷ [] })
parse_req_headers-header_lines_example =
    parse_req_headers-header_lines host_header accept_header [] (codes "body") no_request
      (host_header-IsHeader, (accept_header-IsHeader, tt)) (omega arith)

parse_req_headers_single_example :
    parse_req_headers
      (header_lines ((codes "Host", codes "xy") ∷ []) ++ (crlf ++ codes "body"))
      no_request
    ≡ ok (codes "body", record no_request { headers = host_header ∷ [] })
parse_req_headers_single_example =
    parse_req_headers_single (codes "Host") (codes "x") b'y' (codes "body") no_request
      host_header-IsHeader (omega arith)
