-- ===== src/Jwt/Token/Issue.antt =====
-- The tokens that `generate_jwt` and `create_jwt_for_user` issue.
use cbank_system.Prelude.{
  ℕ, ◌≡◌, ◌≢◌, refl, List, [], ◌∷◌, ◌++◌, Option, none, some, length, take_of_le, arith, All,
  append_assoc, length-append, ◌+◌, ◌≤◌, ◌<◌, take,
}
use cbank_system.Render.{Malloc}
use cbank_system.Prelude.Ret.{ok, fault, or_null, or_null-eq-ok, >>=-eq-ok}
use cbank_system.Text.{Bytes, Lacks, take_while}
use cbank_system.Text.Laws.{strtok-append, strtok-last}
use cbank_system.Jwt.Base64.{base64url_encode}
use cbank_system.Jwt.Base64.Encode.{IsByte}
use cbank_system.Jwt.Base64.RoundTrip.{
  base64url_decode-base64url_encode, base64url_encode-IsUrlSafe, base64url_encode-ne_nil, IsUrlSafe,
}
use cbank_system.Jwt.Token.{
  jwt_header, dotted, c_string, split_token, check_expiry, open_payload, sprintf_into, generate_jwt,
  jwt_validate,
}
use cbank_system.Jwt.Token.Compare.{is_genuine_iff}

-- What OpenSSL documents of HMAC-SHA256: a code of 32 bytes.
abbrev pub IsHmac : (Bytes → Bytes → Option (List ℕ)) → Type 0
IsHmac hmac =
    (secret message mac : Bytes)
    → hmac secret message ≡ some mac
    → (length mac ≡ 32) × All IsByte mac

Lacks-dot : (s : Bytes) → All IsUrlSafe s → Lacks b'.' s
Lacks-dot [] h = tt
Lacks-dot (c ∷ s) (hc, h) = (hc.0, Lacks-dot s h)

-- Three parts without a dot, joined by dots, are what the token splits into.
split_token-dotted :
    (a b c : Bytes)
    → a ≢ []
    → b ≢ []
    → c ≢ []
    → Lacks b'.' a
    → Lacks b'.' b
    → Lacks b'.' c
    → split_token (dotted (dotted a b) c) ≡ ok (a, b, c)
unfolding split_token
split_token-dotted a b c ha hb hc la lb lc = rw (
  append_assoc a (b'.' ∷ b) (b'.' ∷ c),
  strtok-append b'.' a (b ++ b'.' ∷ c) ha la,
  strtok-append b'.' b c hb lb,
  strtok-last b'.' c hc lc,
)

c_string-All : (s : Bytes) → Lacks 0 s → c_string s ≡ s
unfolding take_while
c_string-All [] h = refl
c_string-All (c ∷ s) (hc, h) = ground (arith, c_string-All s h)

header-IsByte : All IsByte jwt_header
header-IsByte = omega arith

header-ne_nil : jwt_header ≢ []
header-ne_nil = λ e. cc

-- The first two parts of the token for a payload.
abbrev pub message_for : Bytes → Bytes
message_for payload = dotted (base64url_encode jwt_header) (base64url_encode payload)

split_token-issued :
    (payload mac : Bytes)
    → payload ≢ []
    → All IsByte payload
    → mac ≢ []
    → All IsByte mac
    → split_token (dotted (message_for payload) (base64url_encode mac))
      ≡ ok (base64url_encode jwt_header, base64url_encode payload, base64url_encode mac)
split_token-issued payload mac some_payload bytes some_mac mac_bytes =
    split_token-dotted _ _ _ (base64url_encode-ne_nil _ header-ne_nil header-IsByte)
      (base64url_encode-ne_nil payload some_payload bytes)
      (base64url_encode-ne_nil mac some_mac mac_bytes)
      (Lacks-dot _ (base64url_encode-IsUrlSafe _ header-IsByte))
      (Lacks-dot _ (base64url_encode-IsUrlSafe payload bytes))
      (Lacks-dot _ (base64url_encode-IsUrlSafe mac mac_bytes))

ne_nil_of_length : (s : Bytes) → length s ≡ 32 → s ≢ []
ne_nil_of_length [] h = absurd (omega arith)
ne_nil_of_length (c ∷ s) h = λ e. cc

length-dotted : (a b : Bytes) → length (dotted a b) ≡ length a + 1 + length b
length-dotted a b = omega (arith, length-append a (b'.' ∷ b))

-- What is printed is the text, where it is printed inside the block.
sprintf_into-eq-ok :
    (block : Option (List ℕ)) (text s : Bytes) → sprintf_into block text ≡ ok s → s ≡ text
unfolding sprintf_into
sprintf_into-eq-ok none text s e = cc
sprintf_into-eq-ok (some block) text s e = ground arith

sprintf_into-fits :
    (block text : Bytes) → length text < length block → sprintf_into (some block) text ≡ ok text
unfolding sprintf_into
sprintf_into-fits block text h = ground arith

-- In a block with a byte more than was asked for the token is made.
pub generate_jwt-roomy :
    (malloc : Malloc) (hmac : Bytes → Bytes → Option (List ℕ)) (payload secret mac : Bytes)
    → ((n : ℕ) → (block : Bytes) × (malloc n ≡ some block) × (n < length block))
    → hmac secret (message_for payload) ≡ some mac
    → generate_jwt malloc hmac payload secret
      ≡ ok (dotted (message_for payload) (base64url_encode (take 32 mac)))
unfolding generate_jwt
generate_jwt-roomy malloc hmac payload secret mac roomy computed =
    let header = base64url_encode jwt_header in
    let body = base64url_encode payload in
    let (block, given, room) = roomy (length header + 1 + length body) in
    rw
      (
        given,
        sprintf_into-fits block (dotted header body) (omega (arith, length-dotted header body)),
        computed,
        generate_jwt,
      )
      refl

-- A block that is no larger than what was asked for has no room for the zero byte.
sprintf_into-short :
    (block : Option (List ℕ)) (text : Bytes) (n : ℕ)
    → ((b : Bytes) → block ≡ some b → length b ≤ n)
    → n ≤ length text
    → sprintf_into block text ≡ fault
unfolding sprintf_into
sprintf_into-short none text n h le = refl
sprintf_into-short (some block) text n h le = let small = h block refl in ground arith

-- Where `malloc` gives no more bytes than it is asked for, `generate_jwt` writes outside its block
-- for every payload and secret: the message is allocated without room for its zero byte.
pub generate_jwt-overflow :
    (malloc : Malloc) (hmac : Bytes → Bytes → Option (List ℕ)) (payload secret : Bytes)
    → ((n : ℕ) (block : Bytes) → malloc n ≡ some block → length block ≤ n)
    → generate_jwt malloc hmac payload secret ≡ fault
unfolding generate_jwt
generate_jwt-overflow malloc hmac payload secret exact =
    let header = base64url_encode jwt_header in
    let body = base64url_encode payload in
    let asked = length header + 1 + length body in
    rw
      (
        sprintf_into-short (malloc asked) (dotted header body) asked (exact asked)
            (omega (arith, length-dotted header body)),
        generate_jwt,
      )
      refl

pub jwt_validate-generate_jwt :
    (malloc : Malloc) (hmac : Bytes → Bytes → Option (List ℕ)) (payload secret token : Bytes)
    (now : ℕ)
    → IsHmac hmac
    → payload ≢ []
    → All IsByte payload
    → Lacks 0 payload
    → generate_jwt malloc hmac payload secret ≡ ok token
    → jwt_validate hmac token secret now ≡ check_expiry payload now
unfolding generate_jwt jwt_validate open_payload
jwt_validate-generate_jwt malloc hmac payload secret token now is_hmac some_payload bytes no_zero
      e =
    let (message, printed, e1) = >>=-eq-ok (sprintf_into (malloc _) (message_for payload)) _ e in
    let is_message = sprintf_into-eq-ok (malloc _) (message_for payload) message printed in
    let (mac, made, e') =
      >>=-eq-ok (or_null (hmac secret (message_for payload))) _ (rw is_message at e1) in
    let computed = or_null-eq-ok (hmac secret (message_for payload)) made in
    let (full, mac_bytes) = is_hmac secret (message_for payload) mac computed in
    let issued : token ≡ dotted (message_for payload) (base64url_encode mac) =
      rw (← take_of_le 32 mac (omega arith)) (ground arith) in
    rw (
      issued,
      split_token-issued payload mac some_payload bytes (ne_nil_of_length mac full) mac_bytes,
      base64url_decode-base64url_encode mac (ne_nil_of_length mac full) mac_bytes,
      computed,
      (is_genuine_iff mac mac).1 refl,
      base64url_decode-base64url_encode payload some_payload bytes,
      c_string-All payload no_zero,
    )
