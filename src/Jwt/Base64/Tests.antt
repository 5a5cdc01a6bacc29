-- ===== src/Jwt/Base64/Tests.antt =====
-- Runs of the token code, and its theorems at concrete inputs.
use cbank_system.Prelude.{◌⊎◌, ◌≤◌, ◌≡◌, refl, length, arith, All, map, replicate}
use cbank_system.Prelude.Ret.{ok, null}
use cbank_system.Text.{Bytes, codes}
use cbank_system.Jwt.Base64.{
  base64_to_base64url, to_url_char, base64_encode, base64decode, decode_writes, base64url_encode,
  base64url_decode, to_url_loop, strip_loop, decoded_len, encode_loop, encode_triple, sextet,
  pad_loop, encoded_len, b64_dec_table, decode_loop, decode_quad, any_invalid, unless_pad, byte_one,
  byte_two, byte_three,
}
use cbank_system.Jwt.Base64.Encode.{IsByte, encoding, base64_encode-encoding}
use cbank_system.Jwt.Base64.RoundTrip.{
  base64decode-base64_encode, base64decode-le-decoded_len, base64url_decode-base64url_encode,
  base64url_decode-unpadded, base64_to_base64url-map,
}

abbrev hello : Bytes
hello = codes "hello"

hello_base64 : base64_encode hello ≡ codes "aGVsbG8="
unfolding base64_encode encode_loop encode_triple sextet pad_loop encoded_len
hello_base64 = refl

hello_back : base64decode (codes "aGVsbG8=") ≡ ok hello
unfolding base64decode decode_loop decode_quad any_invalid unless_pad byte_one byte_two byte_three
    b64_dec_table
hello_back = refl

abbrev hello_bytes : All IsByte hello
hello_bytes = omega arith

base64_encode-encoding_example : base64_encode hello ≡ encoding hello
base64_encode-encoding_example = base64_encode-encoding hello hello_bytes

base64decode-base64_encode_example : base64decode (base64_encode hello) ≡ ok hello
base64decode-base64_encode_example = base64decode-base64_encode hello (λ e. cc) hello_bytes

-- The second quad is outside the alphabet: the first was written already.
base64decode-le-decoded_len_example :
    (length (decode_writes (codes "AAAA!!!!")) ≤ decoded_len (codes "AAAA!!!!"))
    × ((base64decode (codes "AAAA!!!!") ≡ ok (decode_writes (codes "AAAA!!!!")))
        ⊎ (base64decode (codes "AAAA!!!!") ≡ null))
base64decode-le-decoded_len_example = base64decode-le-decoded_len (codes "AAAA!!!!") (λ e. cc) refl

-- Base64url text without its padding.
base64url_decode-unpadded_example : base64url_decode (codes "aGVsbG8") ≡ null
base64url_decode-unpadded_example = base64url_decode-unpadded (codes "aGVsbG8") (λ e. omega arith)

base64url_decode-base64url_encode_example : base64url_decode (base64url_encode hello) ≡ ok hello
base64url_decode-base64url_encode_example =
    base64url_decode-base64url_encode hello (λ e. cc) hello_bytes

base64_to_base64url-map_example :
    base64_to_base64url (codes "a+8=") ≡ map to_url_char (codes "a+8=")
base64_to_base64url-map_example = base64_to_base64url-map (codes "a+8=")

-- The three parts of a token, encoded.
pub header_encoded :
    base64url_encode (codes "{\"alg\":\"HS256\",\"typ\":\"JWT\"}")
    ≡ codes "eyJhbGciOiJIUzI1NiIsInR5cCI6IkpXVCJ9"
unfolding base64url_encode base64_encode base64_to_base64url encode_loop encode_triple sextet
    pad_loop encoded_len to_url_loop strip_loop to_url_char
header_encoded = refl

pub payload_encoded :
    base64url_encode (codes "{\"sub\":\"1\",\"name\":\"Ana\",\"exp\":4600}")
    ≡ codes "eyJzdWIiOiIxIiwibmFtZSI6IkFuYSIsImV4cCI6NDYwMH0="
unfolding base64url_encode base64_encode base64_to_base64url encode_loop encode_triple sextet
    pad_loop encoded_len to_url_loop strip_loop to_url_char
payload_encoded = refl

pub mac_encoded :
    base64url_encode (replicate 32 85) ≡ codes "VVVVVVVVVVVVVVVVVVVVVVVVVVVVVVVVVVVVVVVVVVU="
unfolding base64url_encode base64_encode base64_to_base64url encode_loop encode_triple sextet
    pad_loop encoded_len to_url_loop strip_loop to_url_char
mac_encoded = refl
