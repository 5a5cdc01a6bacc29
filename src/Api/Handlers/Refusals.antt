-- ===== src/Api/Handlers/Refusals.antt =====
-- http_handlers/login_handler.c: what a login that is refused gives the client.
use cbank_system.Prelude.{
  ℕ, ◌≡◌, refl, ◌⊎◌, inl, inr, Bool, false, List, [], ◌∷◌, ◌++◌, Option, length, leb, Bool-cases,
  subst,
}
use cbank_system.Prelude.Ret.{Ret, ok, null, fault, >>=-eq-ok}
use cbank_system.Text.{Bytes, codes, case_eq, to_lower}
use cbank_system.Orm.Files.{Files}
use cbank_system.Orm.Filtering.{Doubles}
use cbank_system.Jwt.Token.{create_jwt_for_user}
use cbank_system.Render.{Malloc}
use cbank_system.Secret.{Secrets, get_env}
use cbank_system.Core.Auth.{Crypt, LoginResponse, login}
use cbank_system.Server.Http.{
  Pair, ContentType, HttpRequest, HttpResponse, http_bad_request, http_unauthorized,
  http_internal_server_error, find_header, add_res_header, add_content_type, add_body,
  make_res_first_line, get_content_type_string, get_header_field_name, max_headers,
}
use cbank_system.Api.Schemas.{LoginSchema, validate_login_schema}
use cbank_system.Api.Handlers.Login.{
  is_json, parse_login, plain_refusal, credentials_refusal, answer_token, answer_login,
  answer_schema, handle_post_login,
}

abbrev pub set_cookie : Bytes
set_cookie = codes "Set-Cookie"

-- The response to a refusal: its status, and no cookie that was not there before.
abbrev pub Refuses : HttpResponse → HttpResponse → Type 0
Refuses before after =
    ((after.status_code ≡ http_bad_request)
      ⊎ ((after.status_code ≡ http_unauthorized)
          ⊎ (after.status_code ≡ http_internal_server_error)))
    × (find_header after.headers set_cookie ≡ find_header before.headers set_cookie)

find_header-snoc :
    (headers : List Pair) (key value name : Bytes)
    → case_eq key name ≡ false
    → find_header (headers ++ (key, value) ∷ []) name ≡ find_header headers name
unfolding find_header
find_header-snoc [] key value name e = rw e refl
find_header-snoc ((k, v) ∷ headers) key value name e =
    rw (find_header-snoc headers key value name e) refl

find_header-add_content_type :
    (res : HttpResponse)
    → find_header (add_content_type res ContentType.plain).headers set_cookie
      ≡ find_header res.headers set_cookie
unfolding add_content_type add_res_header get_header_field_name get_content_type_string
find_header-add_content_type res = elim (Bool-cases (leb max_headers (length res.headers))) [
  | inl e ↦ rw e refl
  | inr e ↦ rw e (
      find_header-snoc res.headers (codes "Content-Type") _ set_cookie
        (unfold case_eq to_lower in refl))
]

status_code-add_content_type :
    (res : HttpResponse) → (add_content_type res ContentType.plain).status_code ≡ res.status_code
unfolding add_content_type add_res_header
status_code-add_content_type res = elim (Bool-cases (leb max_headers (length res.headers))) [
  | inl e ↦ rw e refl
  | inr e ↦ rw e refl
]

plain_refusal-Refuses :
    (res : HttpResponse) (text : Bytes) → Refuses res (plain_refusal res http_bad_request text)
unfolding plain_refusal add_body make_res_first_line
plain_refusal-Refuses res text = (inl refl, find_header-add_content_type res)

credentials_refusal-Refuses : (res : HttpResponse) → Refuses res (credentials_refusal res)
unfolding credentials_refusal add_body make_res_first_line
credentials_refusal-Refuses res = (
  inr (inl (status_code-add_content_type (make_res_first_line res http_unauthorized))),
  find_header-add_content_type (make_res_first_line res http_unauthorized),
)

token_refusal-Refuses :
    (res : HttpResponse) (text : Bytes)
    → Refuses res (add_body (make_res_first_line res http_internal_server_error) text)
unfolding add_body make_res_first_line
token_refusal-Refuses res text = (inr (inr refl), refl)

-- A refusal as the result of a chain.
refused_as :
    (res sent res' : HttpResponse)
    → Refuses res sent
    → ◌≡◌ {A = Ret (HttpResponse × Bool)} (ok (sent, false)) (ok (res', false))
    → Refuses res res'
refused_as res sent res' h e = let same : sent ≡ res' = cc in subst (Refuses res) same h

answer_token-Refuses :
    (res res' : HttpResponse) (token : Ret Bytes)
    → answer_token res token ≡ ok (res', false)
    → Refuses res res'
unfolding answer_token
answer_token-Refuses res res' (ok token) e = cc
answer_token-Refuses res res' null e = refused_as res _ res' (token_refusal-Refuses res _) e
answer_token-Refuses res res' fault e = cc

module _ (malloc : Malloc) (hmac : Bytes → Bytes → Option (List ℕ)) (secrets : Secrets) (now : ℕ)
    (d : Doubles) (crypt : Crypt) (files : Files) where
  -- The token for a user.
  abbrev user_token : LoginResponse → Ret Bytes
  user_token logged =
      create_jwt_for_user malloc hmac (get_env secrets (codes "JWT_EXP"))
        (get_env secrets (codes "JWT_SECRET")) now logged.user.id logged.user.name

  answer_login-Refuses :
      (res res' : HttpResponse) (logged : LoginResponse)
      → answer_login malloc hmac secrets now res logged ≡ ok (res', false)
      → Refuses res res'
  unfolding answer_login
  answer_login-Refuses res res' logged e = elim (Bool-cases logged.success) [
    | inl f ↦ answer_token-Refuses res res' (user_token logged) (rw (f, answer_login) at e)
    | inr f ↦ refused_as res _ res' (credentials_refusal-Refuses res) (rw (f, answer_login) at e)
  ]

  answer_schema-Refuses :
      (res res' : HttpResponse) (schema : Ret LoginSchema)
      → answer_schema malloc hmac secrets now d crypt files res schema ≡ ok (res', false)
      → Refuses res res'
  unfolding answer_schema
  answer_schema-Refuses res res' fault e = cc
  answer_schema-Refuses res res' null e = refused_as res _ res' (plain_refusal-Refuses res _) e
  answer_schema-Refuses res res' (ok schema) e = elim (Bool-cases (validate_login_schema schema)) [
    | inl f ↦
        let (logged, run, answer) =
          >>=-eq-ok (login d crypt files schema.cpf schema.password)
            (answer_login malloc hmac secrets now res) (rw (f, answer_schema) at e) in
        answer_login-Refuses res res' logged answer
    | inr f ↦ refused_as res _ res' (plain_refusal-Refuses res _) (rw (f, answer_schema) at e)
  ]

  -- A login that is answered without success has the status 400, 401 or 500, and sets no cookie.
  pub handle_post_login-Refuses :
      (req : HttpRequest) (res res' : HttpResponse)
      → handle_post_login malloc hmac secrets now d crypt files req res ≡ ok (res', false)
      → Refuses res res'
  unfolding handle_post_login
  handle_post_login-Refuses req res res' e =
      let (json, run, answer) = >>=-eq-ok (is_json req) _ e in
      answer_schema-Refuses res res' (parse_login req json) answer
