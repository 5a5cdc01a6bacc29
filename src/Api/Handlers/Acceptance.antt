-- ===== src/Api/Handlers/Acceptance.antt =====
-- http_handlers/login_handler.c: what a login that succeeds gives the client.
use cbank_system.Prelude.{
  ℕ, zero, suc, ◌+◌, ◌-◌, ◌≤◌, ◌<◌, ◌≡◌, refl, ap, ◌∙◌, inl, inr, Bool, true, List, [], ◌∷◌, ◌++◌,
  Option, length, length-append, append_assoc, take, arith, leb, Bool-cases,
}
use cbank_system.Prelude.Ret.{Ret, ok, null, fault, >>=-eq-ok}
use cbank_system.Text.{Bytes, codes}
use cbank_system.Orm.Files.{Files}
use cbank_system.Orm.Filtering.{Doubles}
use cbank_system.Jwt.Token.{create_jwt_for_user}
use cbank_system.Render.{Malloc}
use cbank_system.Secret.{Secrets, get_env}
use cbank_system.Core.Auth.{Crypt, LoginResponse, login}
use cbank_system.Server.Http.{
  Pair, HttpRequest, HttpResponse, add_res_header, add_content_type, make_res_first_line,
  get_content_type_string, get_header_field_name, max_headers, max_key_len, max_value_len, http_ok,
  add_res_token_cookie,
}
use cbank_system.Api.Schemas.{LoginSchema, validate_login_schema}
use cbank_system.Api.Handlers.Login.{
  is_json, parse_login, accept_login, answer_token, answer_login, answer_schema, handle_post_login,
}
use cbank_system.Api.Handlers.Refusals.{set_cookie}

-- The type of the response to a login, as a header.
abbrev pub json_header : Pair
json_header = (codes "Content-Type", codes "application/json; charset=UTF-8")

-- The cookie that carries a token, as a header.
abbrev pub session_cookie : Bytes → Pair
session_cookie token = (
  set_cookie,
  take 1023
      (codes "token=" ++ (token ++ codes "; Path=/; HttpOnly; SameSite=Strict; Max-Age=3600")),
)

headers-add_res_header :
    (res : HttpResponse) (key value : Bytes)
    → length res.headers < max_headers
    → (add_res_header res key value).headers
      ≡ res.headers ++ (take (max_key_len - 1) key, take (max_value_len - 1) value) ∷ []
unfolding add_res_header
headers-add_res_header res key value room = ground arith

status_code-add_res_header :
    (res : HttpResponse) (key value : Bytes)
    → (add_res_header res key value).status_code ≡ res.status_code
unfolding add_res_header
status_code-add_res_header res key value =
    elim (Bool-cases (leb max_headers (length res.headers))) [
      | inl e ↦ rw e refl
      | inr e ↦ rw e refl
    ]

take-take : (n : ℕ) (s : Bytes) → take n (take n s) ≡ take n s
take-take zero s = refl
take-take (suc n) [] = refl
take-take (suc n) (c ∷ s) = ap (λ r. c ∷ r) (take-take n s)

accept_login-headers :
    (res : HttpResponse) (token : Bytes)
    → length res.headers + 2 ≤ max_headers
    → ((accept_login res token).status_code ≡ http_ok)
      × ((accept_login res token).headers ≡ res.headers ++ json_header ∷ session_cookie token ∷ [])
unfolding accept_login make_res_first_line add_content_type add_res_token_cookie
    get_header_field_name get_content_type_string
accept_login-headers res token room =
    let started = make_res_first_line res http_ok in
    let typed = add_res_header started (codes "Content-Type") json_header.1 in
    let cookie = (session_cookie token).1 in
    let cut =
      take-take 1023
        (codes "token=" ++ (token ++ codes "; Path=/; HttpOnly; SameSite=Strict; Max-Age=3600")) in
    let first = headers-add_res_header started (codes "Content-Type") _ (omega arith) in
    let counted : length typed.headers ≡ suc (length res.headers) =
      rw first (omega (arith, length-append res.headers (json_header ∷ []))) in
    (
      status_code-add_res_header typed set_cookie cookie
          ∙ status_code-add_res_header started (codes "Content-Type") json_header.1,
      headers-add_res_header typed set_cookie cookie (omega arith)
          ∙ ap (λ hs. hs ++ (set_cookie, take 1023 cookie) ∷ []) first
          ∙ append_assoc res.headers (json_header ∷ []) _
          ∙ ap (λ c. res.headers ++ json_header ∷ (set_cookie, c) ∷ []) cut,
    )

answer_token-accept_login :
    (res res' : HttpResponse) (token : Ret Bytes)
    → answer_token res token ≡ ok (res', true)
    → (t : Bytes) × (token ≡ ok t) × (res' ≡ accept_login res t)
unfolding answer_token
answer_token-accept_login res res' (ok token) e = (token, refl, cc)
answer_token-accept_login res res' null e = cc
answer_token-accept_login res res' fault e = cc

module _ (malloc : Malloc) (hmac : Bytes → Bytes → Option (List ℕ)) (secrets : Secrets) (now : ℕ)
    (d : Doubles) (crypt : Crypt) (files : Files) where
  -- The token for a user.
  abbrev user_token : LoginResponse → Ret Bytes
  user_token logged =
      create_jwt_for_user malloc hmac (get_env secrets (codes "JWT_EXP"))
        (get_env secrets (codes "JWT_SECRET")) now logged.user.id logged.user.name

  -- What stands behind a success, and the response that it gives: two headers behind those that were
  -- there, the second with the token.
  abbrev pub Accepts : HttpRequest → HttpResponse → HttpResponse → Type 0
  Accepts req res res' =
      (schema : LoginSchema) × (json : Bool) × (logged : LoginResponse) × (token : Bytes) × (is_json
          req
        ≡ ok json)
      × (parse_login req json ≡ ok schema)
      × (validate_login_schema schema ≡ true)
      × (login d crypt files schema.cpf schema.password ≡ ok logged)
      × (logged.success ≡ true)
      × (user_token logged ≡ ok token)
      × (res'.status_code ≡ http_ok)
      × (res'.headers ≡ res.headers ++ json_header ∷ session_cookie token ∷ [])

  answer_login-accept_login :
      (res res' : HttpResponse) (logged : LoginResponse)
      → answer_login malloc hmac secrets now res logged ≡ ok (res', true)
      → (logged.success ≡ true)
        × (token : Bytes) × (user_token logged ≡ ok token)
        × (res' ≡ accept_login res token)
  unfolding answer_login
  answer_login-accept_login res res' logged e = elim (Bool-cases logged.success) [
    | inl f ↦
        let (token, made, same) =
          answer_token-accept_login res res' (user_token logged) (rw (f, answer_login) at e) in
        (f, token, made, same)
    | inr f ↦ let e' = rw (f, answer_login) at e in cc
  ]

  -- What an answer without a refusal was made of.
  abbrev Answered : HttpResponse → HttpResponse → Ret LoginSchema → Type 0
  Answered res res' parsed =
      (schema : LoginSchema) × (logged : LoginResponse) × (token : Bytes) × (parsed ≡ ok schema)
      × (validate_login_schema schema ≡ true)
      × (login d crypt files schema.cpf schema.password ≡ ok logged)
      × (logged.success ≡ true)
      × (user_token logged ≡ ok token)
      × (res' ≡ accept_login res token)

  answer_schema-Answered :
      (res res' : HttpResponse) (parsed : Ret LoginSchema)
      → answer_schema malloc hmac secrets now d crypt files res parsed ≡ ok (res', true)
      → Answered res res' parsed
  unfolding answer_schema
  answer_schema-Answered res res' fault e = cc
  answer_schema-Answered res res' null e = cc
  answer_schema-Answered res res' (ok schema) e = elim (Bool-cases (validate_login_schema schema)) [
    | inl f ↦
        let (logged, run, answer) =
          >>=-eq-ok (login d crypt files schema.cpf schema.password)
            (answer_login malloc hmac secrets now res) (rw (f, answer_schema) at e) in
        let (success, token, made, same) = answer_login-accept_login res res' logged answer in
        (schema, logged, token, refl, f, run, success, made, same)
    | inr f ↦ let e' = rw (f, answer_schema) at e in cc
  ]

  -- Where two more headers have room, a login that succeeds has fields that are valid, a `login` with
  -- them that succeeded, and a response with the status 200 and, behind the headers that were there,
  -- the type of a JSON document and a cookie with the token that was made for the user of that login,
  -- as far as the cookie's text fits its buffers.
  pub handle_post_login-Accepts :
      (req : HttpRequest) (res res' : HttpResponse)
      → length res.headers + 2 ≤ max_headers
      → handle_post_login malloc hmac secrets now d crypt files req res ≡ ok (res', true)
      → Accepts req res res'
  unfolding handle_post_login
  handle_post_login-Accepts req res res' room e =
      let (json, run, answer) = >>=-eq-ok (is_json req) _ e in
      let (schema, logged, token, parsed, valid, ran, success, made, same) =
        answer_schema-Answered res res' (parse_login req json) answer in
      let (status, headers) = accept_login-headers res token room in
      (
        schema,
        json,
        logged,
        token,
        run,
        parsed,
        valid,
        ran,
        success,
        made,
        ap (λ (r : HttpResponse). r.status_code) same ∙ status,
        ap (λ (r : HttpResponse). r.headers) same ∙ headers,
      )
