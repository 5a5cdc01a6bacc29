-- ===== src/Jwt/Token/Tests.antt =====
-- Runs of the token code, and its theorems at concrete inputs.
use cbank_system.Prelude.{
  ℕ, zero, suc, ap, ◌%◌, ◌+◌, ◌*◌, ◌/◌, ◌≤◌, ◌<◌, ◌≡◌, ◌↔◌, refl, true, List, Option, none, some,
  length, replicate, arith, All,
}
use cbank_system.Prelude.Int.{pos}
use cbank_system.Prelude.Ret.{ok, fault}
use cbank_system.Text.{Bytes, codes, print_int}
use cbank_system.Jwt.Base64.{base64url_encode}
use cbank_system.Jwt.Base64.Encode.{IsByte}
use cbank_system.Jwt.Payload.{payload_text, user_payload, parse_jwt_payload}
use cbank_system.Jwt.Payload.Read.{claims_of, parse_jwt_payload-user_payload}
use cbank_system.Jwt.Token.{
  constant_time_compare, dotted, jwt_header, generate_jwt, create_jwt_for_user, jwt_validate,
  lifetime,
}
use cbank_system.Jwt.Token.Compare.{constant_time_compare_iff}
use cbank_system.Render.{Malloc}
use cbank_system.Jwt.Token.Issue.{IsHmac, generate_jwt-overflow, generate_jwt-roomy}
use cbank_system.Jwt.Token.Session.{session}

-- A stand-in for HMAC-SHA256, with 32 bytes that depend on the message.
abbrev pub toy_hmac : Bytes → Bytes → Option (List ℕ)
toy_hmac secret message = some (replicate 32 (length message % 256))

-- An allocator that rounds a size up to the next multiple of 16, as a byte at least more.
abbrev pub rounding_malloc : Malloc
rounding_malloc n = some (replicate (16 * (n / 16 + 1)) 0)

length-zeros : (n : ℕ) → length (replicate {A = ℕ} n 0) ≡ n
length-zeros zero = refl
length-zeros (suc n) = ap suc (length-zeros n)

pub rounding_malloc-roomy :
    (n : ℕ) → (block : Bytes) × (rounding_malloc n ≡ some block) × (n < length block)
rounding_malloc-roomy n =
    (replicate (16 * (n / 16 + 1)) 0, refl, omega (arith, length-zeros (16 * (n / 16 + 1))))

toy_hmac-ok :
    (b : ℕ) (mac : Bytes)
    → b < 256
    → ◌≡◌ {A = Option Bytes} (some (replicate 32 b)) (some mac)
    → (length mac ≡ 32) × All IsByte mac
toy_hmac-ok b mac h e = let same : replicate 32 b ≡ mac = cc in rw (← same) (omega arith)

toy_hmac-IsHmac : IsHmac toy_hmac
toy_hmac-IsHmac secret message mac e = toy_hmac-ok (length message % 256) mac (omega arith) e

constant_time_compare_iff_example :
    (constant_time_compare (codes "ab") (codes "ac") 2 ≡ true) ↔ (codes "ab" ≡ codes "ac")
constant_time_compare_iff_example = constant_time_compare_iff (codes "ab") (codes "ac") refl

abbrev pub the_secret : Bytes
the_secret = codes "s3cret"

abbrev pub the_id : Bytes
the_id = codes "1"

abbrev pub the_name : Bytes
the_name = codes "Ana"

abbrev pub the_payload : Bytes
the_payload = codes "{\"sub\":\"1\",\"name\":\"Ana\",\"exp\":4600}"

abbrev pub the_token : Bytes
the_token = dotted (dotted (base64url_encode jwt_header) (base64url_encode the_payload)) (
    base64url_encode (
      replicate 32
        (length (dotted (base64url_encode jwt_header) (base64url_encode the_payload)) % 256)))

the_token-generated : generate_jwt rounding_malloc toy_hmac the_payload the_secret ≡ ok the_token
the_token-generated =
    generate_jwt-roomy rounding_malloc toy_hmac the_payload the_secret _ rounding_malloc-roomy refl

the_payload_text : payload_text the_id the_name (pos 4600) ≡ the_payload
unfolding payload_text print_int
the_payload_text = refl

the_token-created :
    create_jwt_for_user rounding_malloc toy_hmac none (some the_secret) 1000 the_id the_name
    ≡ ok the_token
unfolding create_jwt_for_user user_payload payload_text print_int lifetime
the_token-created = the_token-generated

the_payload-fits : length (payload_text the_id the_name (pos 4600)) ≤ 511
the_payload-fits = rw the_payload_text (omega arith)

parse_jwt_payload-user_payload_example :
    parse_jwt_payload (user_payload the_id the_name (pos 4600))
    ≡ ok (claims_of the_id the_name 4600)
parse_jwt_payload-user_payload_example =
    parse_jwt_payload-user_payload the_id the_name 4600 (omega arith) (omega arith) the_payload-fits

pub the_token-accepted : jwt_validate toy_hmac the_token the_secret 2000 ≡ ok the_payload
unfolding lifetime user_payload payload_text print_int
the_token-accepted =
    (session rounding_malloc toy_hmac none (pos 3600) the_secret the_id the_name the_token 1000 4600
      2000 toy_hmac-IsHmac (omega arith) (omega arith) (omega arith) (omega arith) refl refl
      the_payload-fits the_token-created).0

pub the_payload-read : parse_jwt_payload the_payload ≡ ok (claims_of the_id the_name 4600)
unfolding user_payload payload_text print_int
the_payload-read =
    parse_jwt_payload-user_payload the_id the_name 4600 (omega arith) (omega arith) the_payload-fits

-- An allocator that gives what it is asked for.
abbrev exact_malloc : Malloc
exact_malloc n = some (replicate n 0)

exact_block : (n : ℕ) (block : Bytes) → exact_malloc n ≡ some block → length block ≤ n
exact_block n block e = ground (arith, length-zeros n)

generate_jwt-overflow_example : generate_jwt exact_malloc toy_hmac the_payload the_secret ≡ fault
generate_jwt-overflow_example =
    generate_jwt-overflow exact_malloc toy_hmac the_payload the_secret exact_block
