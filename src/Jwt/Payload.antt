-- ===== src/Jwt/Payload.antt =====
-- jwt/jwt.c: the payload that `create_jwt_for_user` prints, `JwtData` and `parse_jwt_payload`.
pub mod Read
pub mod Expiry
use cbank_system.Prelude.{ℕ, List, [], ◌∷◌, Option, none, some, ◌++◌, take, ◌==◌, if◌then◌else◌}
use cbank_system.Prelude.Int.{ℤ, pos}
use cbank_system.Prelude.Ret.{Ret, ok, fault}
use cbank_system.Text.{Bytes, codes, bytes_eq, strchr, tokens, is_char, atol, print_int}
use cbank_system.Utils.{remove_char}

abbrev pub exp_key : Bytes
exp_key = codes "\"exp\":"

-- The text that the format string `{"sub":"%s","name":"%s","exp":%ld}` gives.
unfoldable pub payload_text : Bytes → Bytes → ℤ → Bytes
payload_text user_id name exp =
    codes "{\"sub\":\""
    ++ (user_id
        ++ (codes "\",\"name\":\""
            ++ (name ++ (codes "\",\"exp\":" ++ (print_int exp ++ codes "}")))))

-- `snprintf` cuts it to the buffer of 512 bytes.
unfoldable pub user_payload : Bytes → Bytes → ℤ → Bytes
user_payload user_id name exp = take 511 (payload_text user_id name exp)

pub record JwtData : Type 0 where
  pub exp : ℤ
  pub sub : Option (List ℕ)
  pub name : Option (List ℕ)

-- The three comparisons of a key, each of which may set its field.
pub set_claim : Bytes → Bytes → JwtData → JwtData
set_claim key value jwt = record jwt {
  exp = if bytes_eq key (codes "exp") then atol value else jwt.exp;
  sub = if bytes_eq key (codes "sub") then some value else jwt.sub;
  name = if bytes_eq key (codes "name") then some value else jwt.name;
}

-- One round of the loop; a token without a colon is passed over.
pub read_claim : JwtData → Bytes → JwtData
read_claim jwt token = elim (strchr b':' token) [
  | none ↦ jwt
  | some (key, value) ↦ set_claim (remove_char key b'"') (remove_char value b'"') jwt
]

pub read_claims : JwtData → List Bytes → JwtData
read_claims jwt [] = jwt
read_claims jwt (token ∷ rest) = read_claims (read_claim jwt token) rest

abbrev pub no_claims : JwtData
no_claims = record { exp = pos 0; sub = none; name = none }

-- The first '}' becomes the end of the string, and the first character is passed over unread.
-- Without a '}' the code writes through a null pointer.
pub parse_jwt_payload : Bytes → Ret JwtData
parse_jwt_payload [] = fault
parse_jwt_payload (c ∷ payload) =
    if c == b'}'
    then ok (read_claims no_claims (tokens (is_char b',') payload))
    else elim (strchr b'}' payload) [
      | none ↦ fault
      | some (claims, _) ↦ ok (read_claims no_claims (tokens (is_char b',') claims))
    ]
