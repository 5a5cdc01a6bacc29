-- ===== src/Jwt/Token.antt =====
-- jwt/jwt.c: signed tokens. HMAC-SHA256 is OpenSSL's, a parameter; the clock is an argument.
-- `Malloc` says what `malloc` gives: `generate_jwt` prints a text and its zero byte into a block that was
-- asked for without room for the zero. Other heap blocks are assumed to be granted.
pub mod Compare
pub mod Validate
pub mod Issue
pub mod Session
pub mod Tests
use Prim.Native.Nat.{bit_or, bit_xor}
use cbank_system.Prelude.{
  ℕ, zero, suc, ◌+◌, ◌≡◌, Bool, true, false, not, ◌&&◌, List, [], ◌∷◌, ◌++◌, Option, none, some,
  length, take, drop, get_or, ◌==◌, ltb, if◌then◌else◌,
}
use cbank_system.Prelude.Int.{ℤ, pos, add_ℕ, lt_ℕ}
use cbank_system.Prelude.Ret.{Ret, ok, null, fault, ◌>>=◌, ◌>>◌, guard, or_null}
use cbank_system.Text.{
  Bytes, codes, bytes_eq, strtok, strstr, strchr, is_char, take_while, tokens, atol, print_int,
}
use cbank_system.Data.Fields.{to_int}
use cbank_system.Render.{Malloc}
use cbank_system.Jwt.Payload.{exp_key, user_payload}
use cbank_system.Jwt.Base64.{base64url_encode, base64url_decode}

-- The loop of `constant_time_compare`: rounds left, index, and the differences seen so far.
pub compare_loop : Bytes → Bytes → ℕ → ℕ → ℕ → ℕ
compare_loop r l zero i result = result
compare_loop r l (suc left) i result =
    compare_loop r l left (i + 1) (bit_or result (bit_xor (get_or r i 0) (get_or l i 0)))

pub constant_time_compare : Bytes → Bytes → ℕ → Bool
constant_time_compare r l len = compare_loop r l len 0 0 == 0

abbrev pub jwt_header : Bytes
jwt_header = codes "{\"alg\":\"HS256\",\"typ\":\"JWT\"}"

-- `"%s.%s"`
abbrev pub dotted : Bytes → Bytes → Bytes
dotted a b = a ++ b'.' ∷ b

-- The bytes up to the first zero: what a buffer holds as a C string.
abbrev pub c_string : Bytes → Bytes
c_string = take_while (λ c. not (c == 0))

-- The three parts of a token, as `strtok` on "." finds them; what follows them is not looked at.
pub split_token : Bytes → Ret (List ℕ × List ℕ × List ℕ)
split_token token = do
  (header, rest) ← or_null (strtok (is_char b'.') token)
  (payload, rest') ← or_null (strtok (is_char b'.') rest)
  (signature, rest'') ← or_null (strtok (is_char b'.') rest')
  ok (header, payload, signature)

-- The last part of `jwt_validate`: the payload must carry an expiry that has not passed.
pub check_expiry : Bytes → ℕ → Ret Bytes
check_expiry payload_str now = do
  exp_token ← or_null (strstr payload_str exp_key)
  if lt_ℕ (atol (drop (length exp_key) exp_token)) now then null else ok payload_str

-- `atoi`: of a number outside an `int` the C standard defines no result.
pub atoi : Bytes → Ret ℤ
atoi s = to_int (atol s)

-- `exp ? atoi(exp) : 3600`
unfoldable pub lifetime : Option (List ℕ) → Ret ℤ
lifetime none = ok (pos 3600)
lifetime (some exp) = atoi exp

-- `sprintf` of a text and its zero byte into a block: past the block's end, and at a null pointer,
-- it writes outside.
pub sprintf_into : Option (List ℕ) → Bytes → Ret Bytes
sprintf_into none text = fault
sprintf_into (some block) text = if ltb (length text) (length block) then ok text else fault

-- `(hmac_len == sig_len) && constant_time_compare(hmac, signature, sig_len)`
pub is_genuine : Bytes → Bytes → Bool
is_genuine mac signature =
    length mac == length signature && constant_time_compare mac signature (length signature)

-- What `jwt_validate` does with the payload of a genuine token.
pub open_payload : Bytes → ℕ → Ret Bytes
open_payload payload_b64 now = do
  decoded ← base64url_decode payload_b64
  check_expiry (c_string decoded) now

-- `HMAC(EVP_sha256(), secret, …, message, …)`; `none` is its null result.
module _ (hmac : Bytes → Bytes → Option (List ℕ)) where
  pub jwt_validate : Bytes → Bytes → ℕ → Ret Bytes
  jwt_validate token secret now = do
    (header_b64, payload_b64, signature_b64) ← split_token token
    signature ← base64url_decode signature_b64
    mac ← or_null (hmac secret (dotted header_b64 payload_b64))
    guard (is_genuine mac signature)
    open_payload payload_b64 now

module _ (malloc : Malloc) (hmac : Bytes → Bytes → Option (List ℕ)) where
  unfoldable pub generate_jwt : Bytes → Bytes → Ret Bytes
  unfolding sprintf_into
  generate_jwt payload secret = do
    let header_b64url = base64url_encode jwt_header
    let payload_b64url = base64url_encode payload
    let message_len = length header_b64url + 1 + length payload_b64url
    message ← sprintf_into (malloc message_len) (dotted header_b64url payload_b64url)
    mac ← or_null (hmac secret message)
    ok (dotted message (base64url_encode (take 32 mac)))

  -- The environment's JWT_EXP and JWT_SECRET; without a secret `strlen` follows a null pointer.
  unfoldable pub create_jwt_for_user :
      Option (List ℕ) → Option (List ℕ) → ℕ → Bytes → Bytes → Ret Bytes
  unfolding lifetime
  create_jwt_for_user exp none now user_id name = fault
  create_jwt_for_user exp (some secret) now user_id name = do
    l_exp ← lifetime exp
    generate_jwt (user_payload user_id name (add_ℕ now l_exp)) secret
