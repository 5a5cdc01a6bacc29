-- ===== src/Api/Handlers/Tests.antt =====
-- The theorems on the answers to a login at concrete requests.
use cbank_system.Prelude.{◌%◌, length, take, replicate, arith, ◌≡◌, refl, true, [], ◌∷◌, some}
use cbank_system.Prelude.Ret.{ok}
use cbank_system.Text.{Bytes, codes, bytes_eq, case_eq, to_lower}
use cbank_system.Orm.Tests.{naturals}
use cbank_system.Secret.{Secrets, get_env, find_secret}
use cbank_system.Jwt.Token.Tests.{toy_hmac, rounding_malloc, rounding_malloc-roomy}
use cbank_system.Core.Auth.Tests.{toy_crypt, bank}
use cbank_system.Prelude.Int.{pos}
use cbank_system.Jwt.Base64.{base64url_encode}
use cbank_system.Jwt.Payload.{user_payload}
use cbank_system.Jwt.Token.Issue.{generate_jwt-roomy}
use cbank_system.Jwt.Token.{jwt_header, dotted, lifetime, create_jwt_for_user}
use cbank_system.Data.Tests.{ana, ana-IsStored, ana-IsLine}
use cbank_system.Data.Users.Mount.{mounted}
use cbank_system.Data.Users.Find.{users_of, find_user, found_user, get_user_by_cpf-find_user}
use cbank_system.Core.Auth.{login, check_password, hash_str}
use cbank_system.Api.Schemas.Tests.{credentials, login_request, digits}
use cbank_system.Api.Schemas.Json.{parse_login_json_schema-login_text}
use cbank_system.Server.Http.{
  HttpRequest, HttpResponse, http_bad_request, get_header, find_header, get_header_field_name,
}
use cbank_system.Server.Start.{empty_request}
use cbank_system.Server.Handle.{empty_response}
use cbank_system.Api.Schemas.{
  parse_login_xwf_urlencoded_schema, set_login_fields, set_login_field, validate_login_schema,
}
use cbank_system.Api.Handlers.Login.{
  is_json, parse_login, answer_schema, plain_refusal, accept_login, answer_login, answer_token,
  handle_post_login,
}
use cbank_system.Api.Handlers.Refusals.{Refuses, handle_post_login-Refuses}
use cbank_system.Api.Handlers.Acceptance.{Accepts, handle_post_login-Accepts}

abbrev secrets : Secrets
secrets = some (record { name = codes "JWT_SECRET"; value = codes "k" } ∷ [])

-- A password of seven characters.
abbrev long_password : HttpRequest
long_password = record empty_request {
  headers = (codes "Content-Type", codes "application/x-www-form-urlencoded") ∷ [];
  body_query_params_list = (codes "cpf", codes "123") ∷ (codes "password", codes "1234567") ∷ [];
}

abbrev invalid_fields : HttpResponse
invalid_fields = plain_refusal empty_response http_bad_request (codes "Invalid fields")

handle_post_login-Refuses_example : Refuses empty_response invalid_fields
unfolding handle_post_login is_json get_header find_header get_header_field_name case_eq to_lower
    bytes_eq parse_login parse_login_xwf_urlencoded_schema set_login_fields set_login_field
    answer_schema validate_login_schema
handle_post_login-Refuses_example =
    handle_post_login-Refuses rounding_malloc toy_hmac secrets 0 naturals toy_crypt bank
      long_password empty_response invalid_fields refl

-- Ana's login, with the token that is made for her at time 0.
login_of_ana :
    login naturals toy_crypt bank (codes "12345678900") (codes "secret")
    ≡ ok (record { user = mounted ana; success = true })
unfolding login users_of find_user found_user check_password hash_str bytes_eq mounted
login_of_ana =
    rw
      (get_user_by_cpf-find_user naturals bank (codes "12345678900") (ana ∷ []) refl
        ((ana-IsStored, ana-IsLine), tt) (omega arith))
      refl

abbrev claims : Bytes
claims = user_payload (codes "7") (codes "Ana") (pos 3600)

abbrev message : Bytes
message = dotted (base64url_encode jwt_header) (base64url_encode claims)

abbrev token : Bytes
token = dotted message (base64url_encode (take 32 (replicate 32 (length message % 256))))

login_answer :
    handle_post_login rounding_malloc toy_hmac secrets 0 naturals toy_crypt bank login_request
      empty_response
    ≡ ok (accept_login empty_response token, true)
unfolding handle_post_login is_json get_header find_header get_header_field_name case_eq to_lower
    bytes_eq parse_login answer_schema
login_answer =
    rw
      (
        handle_post_login,
        parse_login_json_schema-login_text login_request credentials
            ((λ e. cc), omega arith, omega arith) digits ((λ e. cc), omega arith, omega arith) refl,
        answer_schema,
        login_of_ana,
      )
      (unfold validate_login_schema answer_login get_env find_secret answer_token
          create_jwt_for_user lifetime bytes_eq mounted in
        rw
          (generate_jwt-roomy rounding_malloc toy_hmac claims (codes "k") _ rounding_malloc-roomy
            refl)
          refl)

handle_post_login-Accepts_example :
    Accepts rounding_malloc toy_hmac secrets 0 naturals toy_crypt bank login_request empty_response
      (accept_login empty_response token)
handle_post_login-Accepts_example =
    handle_post_login-Accepts rounding_malloc toy_hmac secrets 0 naturals toy_crypt bank
      login_request empty_response (accept_login empty_response token) (omega arith) login_answer
