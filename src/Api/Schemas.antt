-- ===== src/Api/Schemas.antt =====
-- src/api/schemas: the fields of a login and of a registration out of a request's body.
-- A parser gives null where the code returns false.
pub mod Json
pub mod Tests
use cbank_system.Prelude.{
  ℕ, suc, Bool, true, false, not, ◌&&◌, List, [], ◌∷◌, ◌++◌, length, take, drop, leb, ltb, ◌==◌,
  if◌then◌else◌,
}
use cbank_system.Prelude.Ret.{Ret, ok, null, fault, ◌>>=◌, or_null}
use cbank_system.Text.{
  Bytes, codes, bytes_eq, starts_with, strstr, drop_while, take_while, is_space,
}
use cbank_system.Server.Http.{Pair, HttpRequest}
use cbank_system.Data.Models.{pwd_max, cpf_digits}
use cbank_system.Core.Users.{RegisterAccountSchema}

-- `%[^"]` into an array of `size` bytes, which is written past its end by a longer value; no byte is no match.
unfoldable pub scan_value : ℕ → Bytes → Ret Bytes
scan_value size [] = null
scan_value size (c ∷ s) =
    let value = take_while (λ b. not (b == b'"')) (c ∷ s) in
    if c == b'"' then null else if ltb (length value) size then ok value else fault

-- `"%[^"]"` behind white space.
unfoldable pub scan_string : ℕ → Bytes → Ret Bytes
unfolding scan_value
scan_string size s = if starts_with (codes "\"") s then scan_value size (drop 1 s) else null

-- `sscanf` by the matcher `"<field>": "%[^"]"`, whose blank stands for any white space.
unfoldable pub parse_json_field : Bytes → Bytes → ℕ → Ret Bytes
unfolding scan_string
parse_json_field json_haystack field size =
    let key = b'"' ∷ (field ++ codes "\":") in
    if starts_with key json_haystack
    then scan_string size (drop_while is_space (drop (length key) json_haystack))
    else null

pub record LoginSchema : Type 0 where
  pub cpf : Bytes
  pub password : Bytes

unfoldable pub parse_login_json_schema : HttpRequest → Ret LoginSchema
unfolding parse_json_field
parse_login_json_schema req = do
  cpf_token ← or_null (strstr req.body (codes "\"cpf"))
  pwd_token ← or_null (strstr req.body (codes "\"password"))
  cpf ← parse_json_field cpf_token (codes "cpf") cpf_digits
  password ← parse_json_field pwd_token (codes "password") pwd_max
  ok (record { cpf = cpf; password = password })

-- One parameter of the body; `snprintf` cuts a value to its array.
unfoldable pub set_login_field : LoginSchema → Pair → LoginSchema
set_login_field schema (key, value) =
    if bytes_eq key (codes "cpf")
    then record { cpf = take 11 value; password = schema.password }
    else if bytes_eq key (codes "password")
    then record { cpf = schema.cpf; password = take 34 value }
    else schema

unfoldable pub set_login_fields : LoginSchema → List Pair → LoginSchema
unfolding set_login_field
set_login_fields schema [] = schema
set_login_fields schema (param ∷ params) = set_login_fields (set_login_field schema param) params

unfoldable pub parse_login_xwf_urlencoded_schema : HttpRequest → Ret LoginSchema
unfolding set_login_fields
parse_login_xwf_urlencoded_schema req =
    ok (set_login_fields (record { cpf = []; password = [] }) req.body_query_params_list)

unfoldable pub validate_login_schema : LoginSchema → Bool
validate_login_schema schema = leb (length schema.cpf) 11 && leb (length schema.password) 6

unfoldable pub parse_register_acc_json_schema : HttpRequest → Ret RegisterAccountSchema
unfolding parse_json_field
parse_register_acc_json_schema req = do
  cpf_token ← or_null (strstr req.body (codes "\"cpf"))
  pwd_token ← or_null (strstr req.body (codes "\"password"))
  name_token ← or_null (strstr req.body (codes "\"name"))
  email_token ← or_null (strstr req.body (codes "\"email"))
  cpf ← parse_json_field cpf_token (codes "cpf") cpf_digits
  password ← parse_json_field pwd_token (codes "password") pwd_max
  name ← parse_json_field name_token (codes "name") 100
  email ← parse_json_field email_token (codes "email") 100
  ok (record { name = name; email = email; cpf = cpf; password = password })

-- One parameter of the body; `snprintf` cuts a value to its array.
unfoldable pub set_register_field : RegisterAccountSchema → Pair → RegisterAccountSchema
set_register_field schema (key, value) =
    if bytes_eq key (codes "cpf")
    then record schema { cpf = take 11 value }
    else if bytes_eq key (codes "name")
    then record schema { name = take 99 value }
    else if bytes_eq key (codes "email")
    then record schema { email = take 99 value }
    else if bytes_eq key (codes "password")
    then record schema { password = take 34 value }
    else schema

unfoldable pub set_register_fields : RegisterAccountSchema → List Pair → RegisterAccountSchema
unfolding set_register_field
set_register_fields schema [] = schema
set_register_fields schema (param ∷ params) =
    set_register_fields (set_register_field schema param) params

unfoldable pub parse_register_acc_xwf_urlencoded_schema : HttpRequest → Ret RegisterAccountSchema
unfolding set_register_fields
parse_register_acc_xwf_urlencoded_schema req = ok (
    set_register_fields (record { name = []; email = []; cpf = []; password = [] })
      req.body_query_params_list)
