-- ===== src/Api/Middlewares.antt =====
-- api/middlewares: what a middleware makes of a request and a response. HMAC-SHA256, the value of
-- JWT_SECRET, which is taken to be set, and the clock are parameters; heap blocks are granted.
use cbank_system.Prelude.{
  ℕ, Bool, true, false, not, ◌&&◌, ◌||◌, List, [], ◌∷◌, ◌++◌, Option, none, some, ◌==◌,
  if◌then◌else◌, length,
}
use cbank_system.Prelude.Int.{is_zero}
use cbank_system.Prelude.Ret.{Ret, ok, null, fault, ◌>>=◌}
use cbank_system.Text.{Bytes, codes, strchr, tokens, is_char}
use cbank_system.Jwt.Payload.{JwtData, parse_jwt_payload}
use cbank_system.Jwt.Token.{jwt_validate}
use cbank_system.Server.Http.{Pair, HttpRequest, HttpResponse, get_req_cookie, make_non_authorized}
use cbank_system.Server.Url.{cut_up, urldecode, append_query_param}
use cbank_system.Server.Router.{Middleware, decode_url, auth}

-- The loop over the tokens: a token with a "=" is a parameter, its value decoded.
unfoldable pub read_param : List Pair → Bytes → List Pair
read_param params token = elim (strchr b'=' token) [
  | none ↦ params
  | some (key, value) ↦ append_query_param key (urldecode value) params
]

unfoldable pub read_params : List Pair → List Bytes → List Pair
read_params params [] = params
read_params params (token ∷ rest) = read_params (read_param params token) rest

unfoldable pub is_body_separator : ℕ → Bool
is_body_separator c = c == b'&' || c == b';'

-- The parts of the path in front of the first "?" and behind it, if there is one.
unfoldable pub with_url_params : HttpRequest → Option (List ℕ × List ℕ) → HttpRequest
with_url_params req none = req
with_url_params req (some (before, params)) = record req {
  path = before ++ b'?' ∷ cut_up (is_char b'&') params;
  url_query_params_list = read_params req.url_query_params_list (tokens (is_char b'&') params);
}

-- A request without a body is left as it is, its path too.
unfoldable pub decode_url_middleware : HttpRequest → HttpResponse → Ret (HttpRequest × HttpResponse)
decode_url_middleware req res =
    let read_body = record req {
      body = cut_up is_body_separator req.body;
      body_query_params_list =
          read_params req.body_query_params_list (tokens is_body_separator req.body);
    } in
    let decoded = with_url_params read_body (strchr b'?' req.path) in
    if length req.body == 0 then ok (req, res) else ok (decoded, res)

unfoldable pub has_value : Option (List ℕ) → Bool
has_value none = false
has_value (some s) = true

unfoldable pub is_complete : JwtData → Bool
is_complete jwt = not (is_zero jwt.exp) && (has_value jwt.name && has_value jwt.sub)

unfoldable pub accept_claims : HttpRequest → HttpResponse → JwtData → HttpRequest × HttpResponse
accept_claims req res jwt =
    if is_complete jwt
    then (record req { authenticated_jwt = jwt }, res)
    else (req, make_non_authorized res)

unfoldable pub accept_payload :
    HttpRequest → HttpResponse → Ret Bytes → Ret (HttpRequest × HttpResponse)
accept_payload req res null = ok (req, make_non_authorized res)
accept_payload req res fault = fault
accept_payload req res (ok payload) =
    parse_jwt_payload payload >>= λ jwt. ok (accept_claims req res jwt)

module _ (hmac : Bytes → Bytes → Option (List ℕ)) (secret : Bytes) (now : ℕ) where
  unfoldable pub check_cookie :
      HttpRequest → HttpResponse → Option (List ℕ) → Ret (HttpRequest × HttpResponse)
  check_cookie req res none = ok (req, make_non_authorized res)
  check_cookie req res (some token) = accept_payload req res (jwt_validate hmac token secret now)

  unfoldable pub auth_middleware : HttpRequest → HttpResponse → Ret (HttpRequest × HttpResponse)
  auth_middleware req res = check_cookie req res (get_req_cookie req (codes "token"))

  -- A call of a middleware by its pointer.
  unfoldable pub call_middleware :
      Middleware → HttpRequest → HttpResponse → Ret (HttpRequest × HttpResponse)
  call_middleware decode_url req res = decode_url_middleware req res
  call_middleware auth req res = auth_middleware req res
