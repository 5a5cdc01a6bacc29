-- ===== src/Server/Handle/Check.antt =====
-- What it takes to pass the two middlewares of the protected routes.
use cbank_system.Prelude.{
  ℕ, ◌≡◌, refl, ap, sym, ◌∙◌, true, false, List, ◌∷◌, Option, none, some, length, leb, ◌==◌,
  Bool-cases, inl, inr,
}
use cbank_system.Prelude.Ret.{Ret, ok, null, fault, ◌>>=◌, >>=-eq-ok}
use cbank_system.Text.{Bytes, codes, strchr}
use cbank_system.Jwt.Payload.{JwtData, parse_jwt_payload}
use cbank_system.Jwt.Token.Validate.{IsAccepted, jwt_validate_iff}
use cbank_system.Server.Http.{
  HttpRequest, HttpResponse, get_req_cookie, make_non_authorized, add_res_header, add_body,
  add_content_type, make_res_first_line, max_headers, send_http_response, redirect,
}
use cbank_system.Server.Router.{Middleware, decode_url, auth}
use cbank_system.Server.Routes.{login_route_path}
use cbank_system.Server.Handle.{Outcome, passed, stop_or, run_middlewares}
use cbank_system.Api.Middlewares.{
  with_url_params, decode_url_middleware, is_complete, accept_claims, accept_payload, check_cookie,
  auth_middleware, call_middleware,
}

-- A request carries a token that is accepted, and the claims read from its payload are the session.
pub record IsAuthenticated (hmac : Bytes → Bytes → Option (List ℕ)) (secret : Bytes) (now : ℕ)
    (req : HttpRequest) (session : JwtData) : Type 0 where
  pub token : Bytes
  pub payload : Bytes
  pub cookie : get_req_cookie req (codes "token") ≡ some token
  pub accepted : IsAccepted hmac token secret now payload
  pub claims : parse_jwt_payload payload ≡ ok session
  pub complete : is_complete session ≡ true

ok_request :
    {req req' : HttpRequest} {res res' : HttpResponse}
    → ◌≡◌ {A = Ret (HttpRequest × HttpResponse)} (ok (req, res)) (ok (req', res'))
    → req' ≡ req
ok_request e = cc

with_url_params-cookies :
    (req : HttpRequest) (split : Option (List ℕ × List ℕ))
    → (with_url_params req split).cookies_list ≡ req.cookies_list
unfolding with_url_params
with_url_params-cookies req none = refl
with_url_params-cookies req (some split) = refl

pub decode_url_middleware-cookies :
    (req req' : HttpRequest) (res res' : HttpResponse)
    → decode_url_middleware req res ≡ ok (req', res')
    → req'.cookies_list ≡ req.cookies_list
unfolding decode_url_middleware
decode_url_middleware-cookies req req' res res' e = elim (Bool-cases (length req.body == 0)) [
  | inl empty ↦ let e' = rw empty at e in ap (λ r. r.cookies_list) (ok_request e')
  | inr full ↦
      let e' = rw full at e in
      ap (λ r. r.cookies_list) (ok_request e') ∙ with_url_params-cookies _ (strchr b'?' req.path)
]

passed_on :
    (res : HttpResponse) (go_on : Ret Outcome) (req' : HttpRequest) (res' : HttpResponse)
    → stop_or res go_on ≡ ok (passed req' res')
    → ((res.status_code == 401) ≡ false) × (go_on ≡ ok (passed req' res'))
unfolding stop_or
passed_on res go_on req' res' e = elim (Bool-cases (res.status_code == 401)) [
  | inl barred ↦
      let (s, e1, e2) =
        >>=-eq-ok (send_http_response (redirect res login_route_path)) _ (rw barred at e) in
      cc
  | inr free ↦ elim (Bool-cases (leb 400 res.status_code)) [
    | inl bad ↦ let (s, e1, e2) = >>=-eq-ok (send_http_response res) _ (rw (free, bad) at e) in cc
    | inr good ↦ (free, rw (free, good) at e)
  ]
]

add_res_header-status :
    (res : HttpResponse) (key value : Bytes)
    → (add_res_header res key value).status_code ≡ res.status_code
unfolding add_res_header
add_res_header-status res key value = elim (Bool-cases (leb max_headers (length res.headers))) [
  | inl full ↦ rw full
  | inr room ↦ rw room
]

make_non_authorized-status : (res : HttpResponse) → (make_non_authorized res).status_code ≡ 401
unfolding make_non_authorized add_body add_content_type make_res_first_line
make_non_authorized-status res = add_res_header-status _ _ _

-- A response that is not refused is not the one that refuses.
not_refused :
    (res res' : HttpResponse)
    → make_non_authorized res ≡ res'
    → (res'.status_code == 401) ≡ false
    → false ≡ true
not_refused res res' e h = let h' = rw (← e, make_non_authorized-status res) at h in sym h'

accept_claims_lem :
    (req req' : HttpRequest) (res res' : HttpResponse) (jwt : JwtData)
    → accept_claims req res jwt ≡ (req', res')
    → (res'.status_code == 401) ≡ false
    → (is_complete jwt ≡ true) × (jwt ≡ req'.authenticated_jwt)
unfolding accept_claims
accept_claims_lem req req' res res' jwt e h = elim (Bool-cases (is_complete jwt)) [
  | inl all_there ↦ let e' = rw all_there at e in (all_there, ap (λ p. p.0.authenticated_jwt) e')
  | inr missing ↦
      let e' = rw missing at e in let clash = not_refused res res' (ap (λ p. p.1) e') h in cc
]

module _ (hmac : Bytes → Bytes → Option (List ℕ)) (secret : Bytes) (now : ℕ) where
  accept_payload_lem :
      (req req' : HttpRequest) (res res' : HttpResponse) (m : Ret Bytes)
      → accept_payload req res m ≡ ok (req', res')
      → (res'.status_code == 401) ≡ false
      → (payload : Bytes) × (m ≡ ok payload)
        × (parse_jwt_payload payload ≡ ok req'.authenticated_jwt)
        × (is_complete req'.authenticated_jwt ≡ true)
  unfolding accept_payload
  accept_payload_lem req req' res res' (ok payload) e h =
      let (jwt, parsed, accepted) = >>=-eq-ok (parse_jwt_payload payload) _ e in
      let (complete, same) = accept_claims_lem req req' res res' jwt (cc) h in
      (payload, refl, parsed ∙ ap ok same, rw (← same) complete)
  accept_payload_lem req req' res res' null e h = let clash = not_refused res res' (cc) h in cc
  accept_payload_lem req req' res res' fault e h = cc

  check_cookie_lem :
      (req req' : HttpRequest) (res res' : HttpResponse) (cookie : Option (List ℕ))
      → check_cookie hmac secret now req res cookie ≡ ok (req', res')
      → (res'.status_code == 401) ≡ false
      → get_req_cookie req (codes "token") ≡ cookie
      → IsAuthenticated hmac secret now req req'.authenticated_jwt
  unfolding check_cookie
  check_cookie_lem req req' res res' none e h same = let clash = not_refused res res' (cc) h in cc
  check_cookie_lem req req' res res' (some token) e h same =
      let (payload, valid, claims, complete) = accept_payload_lem req req' res res' _ e h in
      record {
        token = token;
        payload = payload;
        cookie = same;
        accepted = (jwt_validate_iff hmac token secret now payload).0 valid;
        claims = claims;
        complete = complete;
      }

  run_auth :
      (req req' : HttpRequest) (res res' : HttpResponse)
      → (auth_middleware hmac secret now req res >>= λ p. stop_or (p.1) (ok (passed (p.0) (p.1))))
        ≡ ok (passed req' res')
      → IsAuthenticated hmac secret now req req'.authenticated_jwt
  unfolding auth_middleware
  run_auth req req' res res' e =
      let cookie = get_req_cookie req (codes "token") in
      let ((req2, res2), checked, e1) =
        >>=-eq-ok (check_cookie hmac secret now req res cookie) _ e in
      let (free, e2) = passed_on res2 _ req' res' e1 in
      let same : req2 ≡ req' = cc in
      rw (← same) (check_cookie_lem req req2 res res2 cookie checked free refl)

  pub unmoved :
      (req1 req : HttpRequest) (s : JwtData)
      → req1.cookies_list ≡ req.cookies_list
      → IsAuthenticated hmac secret now req1 s
      → IsAuthenticated hmac secret now req s
  unfolding get_req_cookie
  unmoved req1 req s same h = record {
    token = h.token;
    payload = h.payload;
    cookie = rw (← same) h.cookie;
    accepted = h.accepted;
    claims = h.claims;
    complete = h.complete;
  }

  -- The two middlewares of the protected routes let a request through only if it is authenticated.
  pub run_guarded :
      (rest : List (Option Middleware)) (req req' : HttpRequest) (res res' : HttpResponse)
      → run_middlewares hmac secret now 2 (some decode_url ∷ some auth ∷ rest) req res
        ≡ ok (passed req' res')
      → IsAuthenticated hmac secret now req req'.authenticated_jwt
  unfolding run_middlewares call_middleware auth_middleware
  run_guarded rest req req' res res' e =
      let ((req1, res1), decoded, e1) = >>=-eq-ok (decode_url_middleware req res) _ e in
      let cookies = decode_url_middleware-cookies req req1 res res1 decoded in
      let (_, e2) = passed_on res1 _ req' res' e1 in
      unmoved req1 req _ cookies (run_auth req1 req' res1 res' e2)
