-- ===== src/Jwt/Base64.antt =====
-- jwt/base64.c: base64 and its URL alphabet, in C strings that are lists of bytes.
-- A buffer of known size is written in place by `set`; the definitions are proved about below.
pub mod Encode
pub mod Decode
pub mod RoundTrip
pub mod Tests
use Prim.Native.Nat.{bit_and, bit_or}
use cbank_system.Prelude.{
  ℕ, zero, suc, ◌+◌, ◌-◌, ◌*◌, ◌/◌, ◌%◌, ◌^◌, ◌<◌, Bool, true, false, ◌&&◌, List, [], ◌∷◌, ◌++◌,
  map, length, get_or, set, take, replicate, ◌==◌, leb, if◌then◌else◌,
}
use cbank_system.Prelude.Ret.{Ret, ok, null, fault, ◌>>=◌}
use cbank_system.Text.{Bytes, codes}

abbrev pub b64_table : Bytes
b64_table = codes "ABCDEFGHIJKLMNOPQRSTUVWXYZabcdefghijklmnopqrstuvwxyz0123456789+/"

-- `b64_table[(triple >> shift) & 0x3F]`
pub sextet : ℕ → ℕ → ℕ
sextet triple shift = get_or b64_table (bit_and (triple / 2 ^ shift) 0x3F) 0

-- One round of the loop of `base64_encode`: three octets to four characters.
pub encode_triple : ℕ → ℕ → ℕ → Bytes
encode_triple octet_a octet_b octet_c =
    let triple = (octet_a * 2 ^ 16 + octet_b * 2 ^ 8 + octet_c) % 2 ^ 32 in
    sextet triple 18 ∷ sextet triple 12 ∷ sextet triple 6 ∷ sextet triple 0 ∷ []

-- The loop; an octet past the end of the input is 0.
pub encode_loop : Bytes → Bytes
encode_loop [] = []
encode_loop (a ∷ []) = encode_triple a 0 0
encode_loop (a ∷ b ∷ []) = encode_triple a b 0
encode_loop (a ∷ b ∷ c ∷ rest) = encode_triple a b c ++ encode_loop rest

-- `*output_len`
pub encoded_len : ℕ → ℕ
encoded_len input_length = 4 * ((input_length + 2) / 3)

-- `encoded_data[*output_len - 1 - k] = '='` for every k below the count.
pub pad_loop : ℕ → ℕ → Bytes → Bytes
pad_loop output_len zero out = out
pad_loop output_len (suc k) out = set (pad_loop output_len k out) (output_len - 1 - k) b'='

pub base64_encode : Bytes → Bytes
base64_encode input =
    let output_len = encoded_len (length input) in
    let padding = length input % 3 in
    let encoded = encode_loop input in
    if padding == 0 then encoded else pad_loop output_len (3 - padding) encoded

pub to_url_char : ℕ → ℕ
to_url_char c = if c == b'+' then b'-' else if c == b'/' then b'_' else c

-- The first loop of `base64_to_base64url`: the string rewritten, and the string that the pointer
-- `b64` stands at when the loop ends.
pub to_url_loop : Bytes → List ℕ × List ℕ
to_url_loop [] = ([], [])
to_url_loop (c ∷ s) = let rest = to_url_loop s in (to_url_char c ∷ rest.0, rest.1)

-- `while (len > 0 && b64[len - 1] == '=') { b64[len] = '\0'; len--; }`
pub strip_loop : Bytes → ℕ → Bytes → Bytes
strip_loop b64 zero out = out
strip_loop b64 (suc len) out =
    let next = strip_loop b64 len (take (suc len) out) in
    if get_or b64 len 0 == b'=' then next else out

-- The second loop starts from the pointer that the first one moved.
pub base64_to_base64url : Bytes → Bytes
base64_to_base64url b64 =
    let (written, at) = to_url_loop b64 in written ++ strip_loop at (length at) at

pub base64url_encode : Bytes → Bytes
base64url_encode input = base64_to_base64url (base64_encode input)

pub from_url_char : ℕ → ℕ
from_url_char c = if c == b'-' then b'+' else if c == b'_' then b'/' else c

-- The first loop of `base64url_to_b64`: the string rewritten, and the string that the pointer `str`
-- stands at when the loop ends.
pub from_url_loop : Bytes → List ℕ × List ℕ
from_url_loop [] = ([], [])
from_url_loop (c ∷ s) = let rest = from_url_loop s in (from_url_char c ∷ rest.0, rest.1)

-- The length that is padded is that of the string at the pointer that the loop moved.
pub base64url_to_b64 : Bytes → Bytes
base64url_to_b64 str =
    let (written, at) = from_url_loop str in
    let len = length at in written ++ (at ++ replicate ((4 - len % 4) % 4) b'=')

abbrev within : ℕ → ℕ → ℕ → Bool
within lo hi c = leb lo c && leb c hi

-- `b64_dec_table[c]`; 0x80 marks a character outside the alphabet.
pub b64_dec_table : ℕ → ℕ
b64_dec_table c =
    if within b'A' b'Z' c
    then c - b'A'
    else if within b'a' b'z' c
    then c - b'a' + 26
    else if within b'0' b'9' c
    then c - b'0' + 52
    else if c == b'+'
    then 62
    else if c == b'/'
    then 63
    else if c == b'='
    then 0
    else 0x80

-- `if (data[i] != '=') decoded_data[output_idx++] = byte;`
pub unless_pad : ℕ → ℕ → Bytes
unless_pad c byte = if c == b'=' then [] else byte ∷ []

-- Three bytes from four table entries; each is stored into an `unsigned char`.
pub byte_one : ℕ → ℕ → ℕ
byte_one q0 q1 = bit_or (q0 * 2 ^ 2) (q1 / 2 ^ 4) % 256

pub byte_two : ℕ → ℕ → ℕ
byte_two q1 q2 = bit_or (q1 * 2 ^ 4) (q2 / 2 ^ 2) % 256

pub byte_three : ℕ → ℕ → ℕ
byte_three q2 q3 = bit_or (q2 * 2 ^ 6) q3 % 256

abbrev is_invalid : ℕ → Bool
is_invalid c = b64_dec_table c == 0x80

-- One round of the loop of `base64decode`, on four characters.
pub decode_quad : ℕ → ℕ → ℕ → ℕ → Bytes
decode_quad c0 c1 c2 c3 =
    (byte_one (b64_dec_table c0) (b64_dec_table c1)
      ∷ unless_pad c2 (byte_two (b64_dec_table c1) (b64_dec_table c2)))
    ++ unless_pad c3 (byte_three (b64_dec_table c2) (b64_dec_table c3))

pub any_invalid : ℕ → ℕ → ℕ → ℕ → Bool
any_invalid c0 c1 c2 c3 =
    if is_invalid c0
    then true
    else if is_invalid c1
    then true
    else if is_invalid c2
    then true
    else is_invalid c3

-- The loop, on an input whose length is a multiple of four (a shorter rest would be read past).
pub decode_loop : Bytes → Ret (List ℕ)
decode_loop [] = ok []
decode_loop (c0 ∷ c1 ∷ c2 ∷ c3 ∷ rest) =
    let later = decode_loop rest in
    if any_invalid c0 c1 c2 c3
    then null
    else (later >>= λ bytes. ok (decode_quad c0 c1 c2 c3 ++ bytes))
decode_loop (_ ∷ _) = fault

-- The bytes that the loop has written when it ends, at the end of the input or at a character outside
-- the alphabet: `decoded_data[0]` to `decoded_data[output_idx - 1]`.
pub decode_writes : Bytes → Bytes
decode_writes [] = []
decode_writes (c0 ∷ c1 ∷ c2 ∷ c3 ∷ rest) =
    let later = decode_writes rest in
    if any_invalid c0 c1 c2 c3 then [] else decode_quad c0 c1 c2 c3 ++ later
decode_writes (_ ∷ _) = []

-- `base64decode` reads `data[input_length - 1]` first, which is outside an empty input.
pub base64decode : Bytes → Ret (List ℕ)
base64decode [] = fault
base64decode (c ∷ input) = if length (c ∷ input) % 4 == 0 then decode_loop (c ∷ input) else null

-- `out_len`, the size of the buffer that `base64decode` allocates.
pub decoded_len : Bytes → ℕ
decoded_len input =
    let n = length input in
    let one = (if get_or input (n - 1) 0 == b'=' then n / 4 * 3 - 1 else n / 4 * 3) in
    if get_or input (n - 2) 0 == b'=' then one - 1 else one

pub base64url_decode : Bytes → Ret (List ℕ)
base64url_decode input = base64decode (base64url_to_b64 input)
