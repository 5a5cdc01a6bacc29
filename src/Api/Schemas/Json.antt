-- ===== src/Api/Schemas/Json.antt =====
-- schemas/login_validation_schema.c: the fields of a login out of a JSON document.
use cbank_system.Prelude.{
  ℕ, ◌<◌, ◌≡◌, ◌≢◌, refl, ◌∙◌, true, false, [], ◌∷◌, ◌++◌, some, length, ◌==◌, arith, All, lt→ltb,
}
use cbank_system.Prelude.Ret.{ok}
use cbank_system.Text.{Bytes, Lacks, codes, strstr, starts_with, drop_while, is_digit}
use cbank_system.Text.Laws.{strstr_step, strstr-behind, take_while-Lacks}
use cbank_system.Data.Models.{pwd_max, cpf_digits}
use cbank_system.Server.Http.{HttpRequest}
use cbank_system.Api.Schemas.{
  scan_value, scan_string, parse_json_field, LoginSchema, parse_login_json_schema,
}

-- The document of a login.
abbrev pub login_text : LoginSchema → Bytes
login_text s =
    codes "{\"cpf\":\"" ++ (s.cpf ++ (codes "\",\"password\":\"" ++ (s.password ++ codes "\"}")))

-- A value that ends at its quote, and fits its array.
abbrev pub IsString : ℕ → Bytes → Type 0
IsString size value = (value ≢ []) × Lacks b'"' value × (length value < size)

scan_value-append :
    (size : ℕ) (value rest : Bytes)
    → IsString size value
    → scan_value size (value ++ b'"' ∷ rest) ≡ ok value
unfolding scan_value
scan_value-append size [] rest (filled, lacks, fits) = absurd (filled refl)
scan_value-append size (c ∷ value) rest (filled, lacks, fits) =
    let e : (c == b'"') ≡ false = ground (arith, lacks.0) in
    rw (e, take_while-Lacks b'"' (c ∷ value) rest lacks, lt→ltb (length (c ∷ value)) size fits) refl

cpf_field :
    (s : LoginSchema) (rest : Bytes)
    → IsString cpf_digits s.cpf
    → parse_json_field (codes "\"cpf\":\"" ++ (s.cpf ++ b'"' ∷ rest)) (codes "cpf") cpf_digits
      ≡ ok s.cpf
unfolding parse_json_field starts_with scan_string drop_while
cpf_field s rest h = scan_value-append cpf_digits s.cpf rest h

password_field :
    (s : LoginSchema) (rest : Bytes)
    → IsString pwd_max s.password
    → parse_json_field
        (codes "\"password\":\"" ++ (s.password ++ b'"' ∷ rest))
        (codes "password")
        pwd_max
      ≡ ok s.password
unfolding parse_json_field starts_with scan_string drop_while
password_field s rest h = scan_value-append pwd_max s.password rest h

cpf_token :
    (s : LoginSchema)
    → strstr (login_text s) (codes "\"cpf")
      ≡ some (
          codes "\"cpf\":\""
          ++ (s.cpf ++ (codes "\",\"password\":\"" ++ (s.password ++ codes "\"}"))))
unfolding strstr starts_with
cpf_token s = refl

abbrev pub IsNumber : Bytes → Type 0
IsNumber = All (λ c. is_digit c ≡ true)

digits_no_password :
    (cpf rest : Bytes)
    → cpf ≢ []
    → IsNumber cpf
    → starts_with (codes "password") (cpf ++ rest) ≡ false
unfolding starts_with is_digit
digits_no_password [] rest h k = absurd (h refl)
digits_no_password (c ∷ cpf) rest h (digit, k) = ground arith

-- A CPF of digits is no place at which the second key is found.
pwd_token :
    (s : LoginSchema)
    → IsString cpf_digits s.cpf
    → IsNumber s.cpf
    → strstr (login_text s) (codes "\"password")
      ≡ some (codes "\"password\":\"" ++ (s.password ++ codes "\"}"))
unfolding strstr starts_with
pwd_token s (filled, lacks, fits) number =
    let rest = codes "\",\"password\":\"" ++ (s.password ++ codes "\"}") in
    strstr_step (codes "\"password") b'"' (s.cpf ++ rest)
      (digits_no_password s.cpf rest filled number)
    ∙ strstr-behind b'"' (codes "password") s.cpf rest lacks
    ∙ refl

-- A request whose body is the JSON document of a login, with both fields filled, free of quotes, the CPF in digits, and no longer than
-- their arrays hold, is parsed to that login.
pub parse_login_json_schema-login_text :
    (req : HttpRequest) (s : LoginSchema)
    → IsString cpf_digits s.cpf
    → IsNumber s.cpf
    → IsString pwd_max s.password
    → req.body ≡ login_text s
    → parse_login_json_schema req ≡ ok s
unfolding parse_login_json_schema
parse_login_json_schema-login_text req s hc hn hp e =
    rw (e, cpf_token s, pwd_token s hc hn, cpf_field s _ hc, password_field s _ hp) refl
