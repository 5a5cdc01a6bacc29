-- ===== src/Api/Handlers/Login.antt =====
-- http_handlers/login_handler.c: the page of the login, and the login itself.
-- A handler that sends gives the response that it sends. HMAC, `crypt` and the clock are parameters;
-- the secrets are those that were loaded.
use cbank_system.Prelude.{ℕ, Bool, true, false, List, Option, none, some, if◌then◌else◌}
use cbank_system.Prelude.Ret.{Ret, ok, null, fault, ◌>>=◌}
use cbank_system.Text.{Bytes, codes, bytes_eq}
use cbank_system.Orm.Files.{Files}
use cbank_system.Orm.Filtering.{Doubles}
use cbank_system.Jwt.Token.{jwt_validate, create_jwt_for_user}
use cbank_system.Secret.{Secrets, get_env}
use cbank_system.Render.{Malloc}
use cbank_system.Core.Auth.{Crypt, LoginResponse, login}
use cbank_system.Server.Http.{
  HttpRequest, HttpResponse, HttpHeaderField, ContentType, http_ok, http_bad_request,
  http_unauthorized, http_internal_server_error, get_header, get_req_cookie, add_body,
  add_content_type, add_res_token_cookie, make_res_first_line, redirect,
}
use cbank_system.Api.Schemas.{
  LoginSchema, parse_login_json_schema, parse_login_xwf_urlencoded_schema, validate_login_schema,
}
use cbank_system.Api.Handlers.{accounts_route_path, handle_get_page}

-- The request's type of content, which `strcmp` follows.
unfoldable pub is_json : HttpRequest → Ret Bool
is_json req = elim (get_header req HttpHeaderField.content_type) [
  | none ↦ fault
  | some type ↦ ok (bytes_eq type (codes "application/json"))
]

unfoldable pub parse_login : HttpRequest → Bool → Ret LoginSchema
parse_login req true = parse_login_json_schema req
parse_login req false = parse_login_xwf_urlencoded_schema req

-- An answer in plain text.
unfoldable pub plain_refusal : HttpResponse → ℕ → Bytes → HttpResponse
plain_refusal res code text =
    add_body (make_res_first_line (add_content_type res ContentType.plain) code) text

-- The first line of a refused password is made before its type of content is added.
unfoldable pub credentials_refusal : HttpResponse → HttpResponse
credentials_refusal res =
    add_body (add_content_type (make_res_first_line res http_unauthorized) ContentType.plain)
      (codes "Invalid credentials")

-- The response to a login that succeeded.
unfoldable pub accept_login : HttpResponse → Bytes → HttpResponse
accept_login res token =
    add_res_token_cookie (add_content_type (make_res_first_line res http_ok) ContentType.json) token

-- The token, and the response with it; a token that could not be made is answered as an error.
unfoldable pub answer_token : HttpResponse → Ret Bytes → Ret (HttpResponse × Bool)
unfolding accept_login
answer_token res (ok token) = ok (accept_login res token, true)
answer_token res null = ok (
  add_body (make_res_first_line res http_internal_server_error) (codes "Failed to generate token"),
  false,
)
answer_token res fault = fault

module _ (malloc : Malloc) (hmac : Bytes → Bytes → Option (List ℕ)) (secrets : Secrets)
    (now : ℕ) where
  unfoldable pub answer_login : HttpResponse → LoginResponse → Ret (HttpResponse × Bool)
  unfolding answer_token credentials_refusal
  answer_login res logged =
      if logged.success
      then answer_token res (
          create_jwt_for_user malloc hmac (get_env secrets (codes "JWT_EXP"))
            (get_env secrets (codes "JWT_SECRET")) now logged.user.id logged.user.name)
      else ok (credentials_refusal res, false)

  module _ (d : Doubles) (crypt : Crypt) (files : Files) where
    -- What follows the parser: the validation and the login.
    unfoldable pub answer_schema : HttpResponse → Ret LoginSchema → Ret (HttpResponse × Bool)
    unfolding answer_login plain_refusal
    answer_schema res fault = fault
    answer_schema res null = ok (plain_refusal res http_bad_request (codes "Malformed JSON"), false)
    answer_schema res (ok schema) =
        if validate_login_schema schema
        then (login d crypt files schema.cpf schema.password >>= answer_login res)
        else ok (plain_refusal res http_bad_request (codes "Invalid fields"), false)

    -- The response, and whether the login succeeded.
    unfoldable pub handle_post_login : HttpRequest → HttpResponse → Ret (HttpResponse × Bool)
    unfolding is_json parse_login answer_schema
    handle_post_login req res = do json ← is_json req; answer_schema res (parse_login req json)

    -- A login that succeeded is redirected.
    unfoldable pub after_login : HttpResponse × Bool → HttpResponse
    after_login (res, success) = if success then redirect res accounts_route_path else res

    unfoldable pub handle_get_login : HttpResponse → Ret HttpResponse
    handle_get_login res =
        handle_get_page malloc files (codes "./src/server/templates/auth.html") res

    -- A client with a valid token needs no page. A missing secret is a null pointer followed.
    unfoldable pub greet : HttpResponse → Option (List ℕ) → Option (List ℕ) → Ret HttpResponse
    unfolding handle_get_login
    greet res none secret = handle_get_login res
    greet res (some token) none = fault
    greet res (some token) (some secret) = elim (jwt_validate hmac token secret now) [
      | ok payload ↦ ok (redirect res accounts_route_path)
      | null ↦ handle_get_login res
      | fault ↦ fault
    ]

    -- Nothing is sent for other methods.
    unfoldable pub handle_login : HttpRequest → HttpResponse → Ret (Option HttpResponse)
    unfolding greet handle_post_login after_login
    handle_login req res =
        if bytes_eq req.method (codes "GET")
        then (greet res (get_req_cookie req (codes "token")) (get_env secrets (codes "JWT_SECRET"))
            >>= (λ sent. ok (some sent)))
        else if bytes_eq req.method (codes "POST")
        then (handle_post_login req res >>= (λ answer. ok (some (after_login answer))))
        else ok none
