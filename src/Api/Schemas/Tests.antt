-- ===== src/Api/Schemas/Tests.antt =====
-- The theorem on the schemas at a concrete request.
use cbank_system.Prelude.{◌≡◌, refl, [], arith, ◌∷◌}
use cbank_system.Prelude.Ret.{ok}
use cbank_system.Text.{codes, is_digit}
use cbank_system.Server.Http.{HttpRequest}
use cbank_system.Server.Start.{empty_request}
use cbank_system.Api.Schemas.{LoginSchema, parse_login_json_schema}
use cbank_system.Api.Schemas.Json.{IsNumber, parse_login_json_schema-login_text}

abbrev pub credentials : LoginSchema
credentials = record { cpf = codes "12345678900"; password = codes "secret" }

abbrev pub login_request : HttpRequest
login_request = record empty_request {
  method = codes "POST";
  headers = (codes "Content-Type", codes "application/json") ∷ [];
  body = codes "{\"cpf\":\"12345678900\",\"password\":\"secret\"}";
}

pub digits : IsNumber credentials.cpf
unfolding is_digit
digits = (refl, (refl, (refl, (refl, (refl, (refl, (refl, (refl, (refl, (refl, (refl, tt)))))))))))

parse_login_json_schema-login_text_example : parse_login_json_schema login_request ≡ ok credentials
parse_login_json_schema-login_text_example =
    parse_login_json_schema-login_text login_request credentials
      ((λ e. cc), omega arith, omega arith) digits ((λ e. cc), omega arith, omega arith) refl
