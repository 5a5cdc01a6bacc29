-- ===== src/Jwt/Token/Validate.antt =====
-- Which tokens `jwt_validate` accepts.
use cbank_system.Prelude.{
  ℕ, ◌≡◌, ◌↔◌, refl, ap, sym, ◌∙◌, false, List, Option, some, length, drop, arith,
}
use cbank_system.Prelude.Int.{lt_ℕ}
use cbank_system.Prelude.Ret.{ok, or_null, >>=-eq-ok, guard-eq-ok, or_null-eq-ok}
use cbank_system.Text.{Bytes, strstr, atol}
use cbank_system.Jwt.Payload.{exp_key}
use cbank_system.Jwt.Base64.{base64url_decode}
use cbank_system.Jwt.Token.{
  is_genuine, open_payload, dotted, c_string, split_token, check_expiry, jwt_validate,
}
use cbank_system.Jwt.Token.Compare.{is_genuine_iff}

-- An expiry stands in the payload, and it has not passed.
pub record IsFresh (payload : Bytes) (now : ℕ) : Type 0 where
  pub exp_token : Bytes
  pub found : strstr payload exp_key ≡ some exp_token
  pub not_passed : lt_ℕ (atol (drop (length exp_key) exp_token)) now ≡ false

-- The token splits into three parts, its signature decodes to the code of the first two under the
-- secret, and the second decodes to the payload, which is fresh.
pub record IsAccepted (hmac : Bytes → Bytes → Option (List ℕ)) (token secret : Bytes) (now : ℕ)
    (payload : Bytes) : Type 0 where
  pub header_b64 : Bytes
  pub payload_b64 : Bytes
  pub signature_b64 : Bytes
  pub mac : Bytes
  pub decoded : Bytes
  pub parts : split_token token ≡ ok (header_b64, payload_b64, signature_b64)
  pub signed : hmac secret (dotted header_b64 payload_b64) ≡ some mac
  pub genuine : base64url_decode signature_b64 ≡ ok mac
  pub carried : base64url_decode payload_b64 ≡ ok decoded
  pub same : payload ≡ c_string decoded
  pub fresh : IsFresh payload now

check_expiry_sound :
    (s payload : Bytes) (now : ℕ) → check_expiry s now ≡ ok payload → (payload ≡ s) × IsFresh s now
unfolding check_expiry
check_expiry_sound s payload now e =
    let (t, at, rest) = >>=-eq-ok (or_null (strstr s exp_key)) _ e in
    (
      ground arith,
      record {
        exp_token = t;
        found = or_null-eq-ok (strstr s exp_key) at;
        not_passed = ground arith;
      },
    )

check_expiry_complete :
    (payload : Bytes) (now : ℕ) → IsFresh payload now → check_expiry payload now ≡ ok payload
unfolding check_expiry
check_expiry_complete payload now h = rw (h.found, h.not_passed)

module _ (hmac : Bytes → Bytes → Option (List ℕ)) (token secret : Bytes) (now : ℕ)
    (payload : Bytes) where
  sound : jwt_validate hmac token secret now ≡ ok payload → IsAccepted hmac token secret now payload
  unfolding jwt_validate open_payload
  sound e =
      let ((header, body, sig), parts, e1) = >>=-eq-ok (split_token token) _ e in
      let (signature, decoded_sig, e2) = >>=-eq-ok (base64url_decode sig) _ e1 in
      let (mac, computed, e3) = >>=-eq-ok (or_null (hmac secret (dotted header body))) _ e2 in
      let (equal, e4) = guard-eq-ok (is_genuine mac signature) (open_payload body now) e3 in
      let (decoded, carried, e5) = >>=-eq-ok (base64url_decode body) _ e4 in
      let (same, fresh) = check_expiry_sound (c_string decoded) payload now e5 in
      record {
        header_b64 = header;
        payload_b64 = body;
        signature_b64 = sig;
        mac = mac;
        decoded = decoded;
        parts = parts;
        signed = or_null-eq-ok (hmac secret (dotted header body)) computed;
        genuine = decoded_sig ∙ ap ok (sym ((is_genuine_iff mac signature).0 equal));
        carried = carried;
        same = same;
        fresh = rw same fresh;
      }

  complete :
      IsAccepted hmac token secret now payload → jwt_validate hmac token secret now ≡ ok payload
  unfolding jwt_validate open_payload
  complete h =
      rw (h.parts, h.genuine, h.signed, (is_genuine_iff h.mac h.mac).1 refl, h.carried, ← h.same)
        (check_expiry_complete payload now h.fresh)

pub jwt_validate_iff :
    (hmac : Bytes → Bytes → Option (List ℕ)) (token secret : Bytes) (now : ℕ) (payload : Bytes)
    → (jwt_validate hmac token secret now ≡ ok payload) ↔ IsAccepted hmac token secret now payload
jwt_validate_iff hmac token secret now payload =
    (sound hmac token secret now payload, complete hmac token secret now payload)
