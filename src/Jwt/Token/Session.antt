-- ===== src/Jwt/Token/Session.antt =====
-- A token from login to its expiry: `create_jwt_for_user`, `jwt_validate` and `parse_jwt_payload`.
use cbank_system.Prelude.{
  ℕ, ◌≤◌, ◌≡◌, ◌≢◌, refl, ◌∙◌, true, List, [], Option, some, length, take_of_le, arith, ltb, All,
  if◌then◌else◌,
}
use cbank_system.Render.{Malloc}
use cbank_system.Prelude.Int.{ℤ, pos, add_ℕ}
use cbank_system.Prelude.Ret.{ok, null}
use cbank_system.Text.{Bytes, Lacks, atol-print_nat, is_digit}
use cbank_system.Jwt.Base64.Encode.{IsByte}
use cbank_system.Jwt.Payload.{payload_text, user_payload, parse_jwt_payload}
use cbank_system.Jwt.Payload.Read.{
  IsPlain, Lacks-of_IsPlain, claims_of, payload_text-All, payload_text-ne_nil,
  parse_jwt_payload-user_payload,
}
use cbank_system.Jwt.Payload.Expiry.{find_exp}
use cbank_system.Jwt.Token.{check_expiry, lifetime, generate_jwt, create_jwt_for_user, jwt_validate}
use cbank_system.Jwt.Token.Issue.{IsHmac, jwt_validate-generate_jwt}

-- The expiry of a payload decides as the number that was printed into it.
check_expiry-payload_text :
    (user_id name : Bytes) (n now : ℕ)
    → IsPlain user_id
    → IsPlain name
    → check_expiry (payload_text user_id name (pos n)) now
      ≡ (if ltb n now then null else ok (payload_text user_id name (pos n)))
unfolding check_expiry
check_expiry-payload_text user_id name n now plain_id plain_name = rw (
  find_exp user_id name n plain_id plain_name,
  atol-print_nat n b'}' [] (unfold is_digit in refl),
)

digit-IsByte : (c : ℕ) → is_digit c ≡ true → IsByte c
unfolding is_digit
digit-IsByte c h = ground arith

digit-ne_zero : (c : ℕ) → is_digit c ≡ true → c ≢ 0
unfolding is_digit
digit-ne_zero c h = ground arith

Lacks-zero : (s : Bytes) → IsPlain s → Lacks 0 s
Lacks-zero = Lacks-of_IsPlain 0 (λ c p. p.3)

pub session :
    (malloc : Malloc) (hmac : Bytes → Bytes → Option (List ℕ)) (exp : Option (List ℕ)) (l_exp : ℤ)
    (secret user_id name token : Bytes) (now until later : ℕ)
    → IsHmac hmac
    → IsPlain user_id
    → IsPlain name
    → All IsByte user_id
    → All IsByte name
    → lifetime exp ≡ ok l_exp
    → add_ℕ now l_exp ≡ pos until
    → length (payload_text user_id name (pos until)) ≤ 511
    → create_jwt_for_user malloc hmac exp (some secret) now user_id name ≡ ok token
    → (jwt_validate hmac token secret later
        ≡ (if ltb until later then null else ok (user_payload user_id name (pos until))))
      × (parse_jwt_payload (user_payload user_id name (pos until))
          ≡ ok (claims_of user_id name until))
unfolding create_jwt_for_user user_payload
session malloc hmac exp l_exp secret user_id name token now until later is_hmac plain_id plain_name
      bytes_id bytes_name lasts expires fits e =
    let whole = take_of_le 511 (payload_text user_id name (pos until)) fits in
    let issued : generate_jwt malloc hmac (payload_text user_id name (pos until)) secret
        ≡ ok token =
      rw (← whole, ← expires) (rw (create_jwt_for_user, lasts) at e) in
    (
      rw whole (
          jwt_validate-generate_jwt malloc hmac (payload_text user_id name (pos until)) secret token
            later is_hmac (payload_text-ne_nil user_id name until)
            (payload_text-All IsByte digit-IsByte user_id name until bytes_id bytes_name
              (omega arith) (omega arith) (omega arith) (omega arith))
            (payload_text-All (λ c. c ≢ 0) digit-ne_zero user_id name until
              (Lacks-zero user_id plain_id) (Lacks-zero name plain_name) (omega arith) (omega arith)
              (omega arith) (omega arith))
            issued
          ∙ check_expiry-payload_text user_id name until later plain_id plain_name),
      parse_jwt_payload-user_payload user_id name until plain_id plain_name fits,
    )
