-- ===== src/Jwt/Base64/RoundTrip.antt =====
-- Encoding and decoding together, over both alphabets.
use cbank_system.Prelude.{
  ◌⊎◌, ℕ, suc, ◌%◌, ◌≤◌, ◌<◌, ◌≡◌, ◌≢◌, refl, ap, ◌∙◌, [], ◌∷◌, map, arith, length, append-nil, All,
  ◌==◌, if◌then◌else◌, Bool, true, false, List,
}
use cbank_system.Prelude.Ret.{ok, null}
use cbank_system.Prelude.Bits.{agree_below, eq_of_agree}
use cbank_system.Text.{Bytes}
use cbank_system.Jwt.Base64.{
  base64_encode, base64decode, decode_loop, decode_writes, to_url_char, to_url_loop, strip_loop,
  base64_to_base64url, base64url_encode, from_url_char, from_url_loop, base64url_to_b64,
  base64url_decode, decoded_len,
}
use cbank_system.Jwt.Base64.Encode.{IsByte, letter, quad, encoding, base64_encode-encoding}
use cbank_system.Jwt.Base64.Decode.{decode_loop-encoding, decode_loop-cases, length-decode_writes}

length-encoding : (input : Bytes) → length (encoding input) % 4 ≡ 0
unfolding encoding quad
length-encoding [] = refl
length-encoding (a ∷ []) = refl
length-encoding (a ∷ b ∷ []) = refl
length-encoding (a ∷ b ∷ c ∷ rest) = omega (arith, length-encoding rest)

pub encoding-ne_nil : (input : Bytes) → input ≢ [] → encoding input ≢ []
unfolding encoding quad
encoding-ne_nil [] h = absurd (h refl)
encoding-ne_nil (a ∷ []) h = λ e. cc
encoding-ne_nil (a ∷ b ∷ []) h = λ e. cc
encoding-ne_nil (a ∷ b ∷ c ∷ rest) h = λ e. cc

-- On a length that is a multiple of four the decoder is its loop.
base64decode-decode_loop : (s : Bytes) → s ≢ [] → length s % 4 ≡ 0 → base64decode s ≡ decode_loop s
unfolding base64decode
base64decode-decode_loop [] h e = absurd (h refl)
base64decode-decode_loop (c ∷ s) h e = ground arith

base64decode-encoding :
    (input : Bytes) → input ≢ [] → All IsByte input → base64decode (encoding input) ≡ ok input
base64decode-encoding input h bytes =
    base64decode-decode_loop (encoding input) (encoding-ne_nil input h) (length-encoding input)
    ∙ decode_loop-encoding input bytes

-- A non-empty string of bytes is what its base64 text decodes to.
pub base64decode-base64_encode :
    (input : Bytes) → input ≢ [] → All IsByte input → base64decode (base64_encode input) ≡ ok input
base64decode-base64_encode input h bytes =
    rw (base64_encode-encoding input bytes) (base64decode-encoding input h bytes)

-- For every text that `base64decode` takes up, whole quads and at least one, what its loop writes stays
-- inside the buffer that it allocates, also where a character outside the alphabet stops it. It
-- returns what it wrote, or a null pointer.
pub base64decode-le-decoded_len :
    (input : Bytes)
    → input ≢ []
    → length input % 4 ≡ 0
    → (length (decode_writes input) ≤ decoded_len input)
      × ((base64decode input ≡ ok (decode_writes input)) ⊎ (base64decode input ≡ null))
base64decode-le-decoded_len input h whole = (
  length-decode_writes input h whole,
  rw (base64decode-decode_loop input h whole) (decode_loop-cases input whole),
)

-- The URL alphabet.
to_url_loop_lem : (s : Bytes) → (to_url_loop s).0 ≡ map to_url_char s
unfolding to_url_loop
to_url_loop_lem [] = refl
to_url_loop_lem (c ∷ s) = cc (to_url_loop_lem s)

to_url_loop_end : (s : Bytes) → (to_url_loop s).1 ≡ []
unfolding to_url_loop
to_url_loop_end [] = refl
to_url_loop_end (c ∷ s) = to_url_loop_end s

-- On every string the conversion to the URL alphabet only rewrites characters: the loop that is to
-- remove the padding starts at the end of the string, and removes nothing.
pub base64_to_base64url-map : (s : Bytes) → base64_to_base64url s ≡ map to_url_char s
unfolding base64_to_base64url
base64_to_base64url-map s =
    rw (to_url_loop_end s, to_url_loop_lem s) (unfold strip_loop in append-nil (map to_url_char s))

-- What holds of every letter and of '=' holds of every character of an encoding.
module _ (P : ℕ → Type 0) (of_letter : (v : ℕ) → v < 64 → P (letter v)) (of_pad : P b'=') where
  encoding-All : (input : Bytes) → All IsByte input → All P (encoding input)
  unfolding encoding quad
  encoding-All [] h = tt
  encoding-All (a ∷ []) (ha, _) =
      (of_letter _ (omega arith), (of_letter _ (omega arith), (of_pad, (of_pad, tt))))
  encoding-All (a ∷ b ∷ []) (ha, (hb, _)) = (
    of_letter _ (omega arith),
    (of_letter _ (omega arith), (of_letter _ (omega arith), (of_pad, tt))),
  )
  encoding-All (a ∷ b ∷ c ∷ rest) (ha, (hb, (hc, h))) = (
    of_letter _ (omega arith),
    (
      of_letter _ (omega arith),
      (of_letter _ (omega arith), (of_letter _ (omega arith), encoding-All rest h)),
    ),
  )

-- A letter survives the way to the URL alphabet and back.
url_there_and_back : (v : ℕ) → v < 64 → from_url_char (to_url_char (letter v)) ≡ letter v
unfolding letter from_url_char to_url_char agree_below
url_there_and_back = eq_of_agree (λ v. from_url_char (to_url_char (letter v))) letter 64 refl

map_there_and_back :
    (s : Bytes)
    → All (λ c. from_url_char (to_url_char c) ≡ c) s
    → map from_url_char (map to_url_char s) ≡ s
map_there_and_back [] h = refl
map_there_and_back (c ∷ s) (hc, h) = cc (hc, map_there_and_back s h)

from_url_loop_lem : (s : Bytes) → (from_url_loop s).0 ≡ map from_url_char s
unfolding from_url_loop
from_url_loop_lem [] = refl
from_url_loop_lem (c ∷ s) = cc (from_url_loop_lem s)

from_url_loop_end : (s : Bytes) → (from_url_loop s).1 ≡ []
unfolding from_url_loop
from_url_loop_end [] = refl
from_url_loop_end (c ∷ s) = from_url_loop_end s

-- The loop that is to pad counts from the end of the string, and adds nothing.
base64url_to_b64-map : (s : Bytes) → base64url_to_b64 s ≡ map from_url_char s
unfolding base64url_to_b64
base64url_to_b64-map s =
    rw (from_url_loop_end s, from_url_loop_lem s) (append-nil (map from_url_char s))

length-from_url : (s : Bytes) → length (map from_url_char s) ≡ length s
length-from_url [] = refl
length-from_url (c ∷ s) = ap suc (length-from_url s)

base64decode-odd : (s : Bytes) → length s % 4 ≢ 0 → base64decode s ≡ null
unfolding base64decode
base64decode-odd [] h = absurd (h refl)
base64decode-odd (c ∷ s) h = ground arith

-- A text whose length is not a multiple of four, such as base64url text without its padding, is
-- refused by `base64url_decode`: the padding that the code means to restore is not added.
pub base64url_decode-unpadded : (s : Bytes) → length s % 4 ≢ 0 → base64url_decode s ≡ null
unfolding base64url_decode
base64url_decode-unpadded s h =
    ap base64decode (base64url_to_b64-map s)
    ∙ base64decode-odd (map from_url_char s) (rw (length-from_url s) h)

base64url_to_b64-to_url :
    (s : Bytes)
    → All (λ c. from_url_char (to_url_char c) ≡ c) s
    → base64url_to_b64 (map to_url_char s) ≡ s
base64url_to_b64-to_url s h = base64url_to_b64-map (map to_url_char s) ∙ map_there_and_back s h

-- `base64url_encode` is the standard encoding with two letters exchanged, its padding kept.
pub base64url_encode-encoding :
    (input : Bytes) → All IsByte input → base64url_encode input ≡ map to_url_char (encoding input)
unfolding base64url_encode
base64url_encode-encoding input h =
    base64_to_base64url-map (base64_encode input)
    ∙ ap (map to_url_char) (base64_encode-encoding input h)

-- A non-empty string of bytes is what its base64url text decodes to.
pub base64url_decode-base64url_encode :
    (input : Bytes)
    → input ≢ []
    → All IsByte input
    → base64url_decode (base64url_encode input) ≡ ok input
unfolding base64url_decode
base64url_decode-base64url_encode input h bytes =
    let kept =
      encoding-All (λ c. from_url_char (to_url_char c) ≡ c) url_there_and_back
        (unfold from_url_char to_url_char in refl) input bytes in
    rw (base64url_encode-encoding input bytes, base64url_to_b64-to_url (encoding input) kept)
      (base64decode-encoding input h bytes)

-- What is asked of every character of a base64url text, whose padding '=' is kept: it is none of the separators
-- '.', ';', ',' and '&', not '+', '/' or '%', no blank, no end of a line and no zero byte.
abbrev pub IsUrlSafe : ℕ → Type 0
IsUrlSafe c =
    (c ≢ b'.')
    × (c ≢ b';')
    × (c ≢ b'+')
    × (c ≢ b'/')
    × (c ≢ b' ')
    × (c ≢ 0)
    × (c ≢ b',')
    × (c ≢ b'&')
    × (c ≢ b'%')
    × (c ≢ 13)
    × (c ≢ 10)

any_of : List ℕ → ℕ → Bool
any_of [] c = false
any_of (b ∷ bs) c = if c == b then true else any_of bs c

url_safe_code : ℕ → ℕ
unfolding any_of
url_safe_code c =
    if any_of (b'.' ∷ b';' ∷ b'+' ∷ b'/' ∷ b' ' ∷ 0 ∷ b',' ∷ b'&' ∷ b'%' ∷ 13 ∷ 10 ∷ []) c
    then 1
    else 0

IsUrlSafe-letter : (v : ℕ) → v < 64 → IsUrlSafe (to_url_char (letter v))
unfolding letter to_url_char agree_below url_safe_code any_of
IsUrlSafe-letter v h =
    url_safe_of_code (to_url_char (letter v))
      (eq_of_agree (λ w. url_safe_code (to_url_char (letter w))) (λ w. 0) 64 refl v h)
  where
    url_safe_of_code : (c : ℕ) → url_safe_code c ≡ 0 → IsUrlSafe c
    url_safe_of_code c e = ground arith

All-map_to_url :
    (s : Bytes) → All (λ c. IsUrlSafe (to_url_char c)) s → All IsUrlSafe (map to_url_char s)
All-map_to_url [] h = tt
All-map_to_url (c ∷ s) (hc, h) = (hc, All-map_to_url s h)

-- For every string of bytes the text of `base64url_encode` has none of '.', ';', ',', '&', '+', '/',
-- '%', blank, line ends and the zero byte in it. Its padding, '=', is kept and not excluded.
pub base64url_encode-IsUrlSafe :
    (input : Bytes) → All IsByte input → All IsUrlSafe (base64url_encode input)
base64url_encode-IsUrlSafe input h = rw (base64url_encode-encoding input h) (
    All-map_to_url (encoding input) (
      encoding-All (λ c. IsUrlSafe (to_url_char c)) IsUrlSafe-letter
        (unfold to_url_char in ground arith) input h))

map-ne_nil : (s : Bytes) → s ≢ [] → map to_url_char s ≢ []
map-ne_nil [] h = absurd (h refl)
map-ne_nil (c ∷ s) h = λ e. cc

pub base64url_encode-ne_nil :
    (input : Bytes) → input ≢ [] → All IsByte input → base64url_encode input ≢ []
base64url_encode-ne_nil input h bytes =
    rw (base64url_encode-encoding input bytes)
      (map-ne_nil (encoding input) (encoding-ne_nil input h))
