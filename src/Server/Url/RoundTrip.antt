-- ===== src/Server/Url/RoundTrip.antt =====
-- `urldecode` against an encoder, and its buffer.
use cbank_system.Prelude.{
  ℕ, ◌+◌, ◌-◌, ◌*◌, ◌/◌, ◌%◌, ◌≤◌, ◌<◌, ◌≡◌, refl, ap, sym, true, false, Bool, ◌&&◌, ◌||◌, [], ◌∷◌,
  length, leb, ltb, ◌==◌, if◌then◌else◌, arith, All, Bool-cases, inl, inr,
}
use cbank_system.Text.{Bytes}
use cbank_system.Jwt.Base64.Encode.{IsByte}
use cbank_system.Server.Url.{isxdigit, hex_value, plus_to_blank, urldecode}

-- The upper case hexadecimal digit of a value below 16.
abbrev hex_digit : ℕ → ℕ
hex_digit v = if ltb v 10 then b'0' + v else b'A' + (v - 10)

-- Letters, digits and "-_.~" stand for themselves in a form; a blank is "+".
abbrev is_unreserved : ℕ → Bool
is_unreserved c =
    (leb b'A' c && leb c b'Z')
    || (leb b'a' c && leb c b'z')
    || (leb b'0' c && leb c b'9')
    || c == b'-'
    || c == b'_'
    || c == b'.'
    || c == b'~'

-- The encoding of a form: application/x-www-form-urlencoded.
unfoldable pub urlencode : Bytes → Bytes
urlencode [] = []
urlencode (c ∷ s) =
    if is_unreserved c
    then c ∷ urlencode s
    else if c == b' '
    then b'+' ∷ urlencode s
    else b'%' ∷ hex_digit (c / 16) ∷ hex_digit (c % 16) ∷ urlencode s

hex_digit-isxdigit : (v : ℕ) → v < 16 → isxdigit (hex_digit v) ≡ true
unfolding isxdigit
hex_digit-isxdigit v h = ground arith

hex_value-hex_digit : (v : ℕ) → v < 16 → hex_value (hex_digit v) ≡ v
unfolding hex_value
hex_value-hex_digit v h = ground arith

-- A byte other than "%" is decoded by itself.
decode_plain :
    (c : ℕ) (s : Bytes) → (c == b'%') ≡ false → urldecode (c ∷ s) ≡ plus_to_blank c ∷ urldecode s
unfolding urldecode
decode_plain c [] h = refl
decode_plain c (a ∷ []) h = refl
decode_plain c (a ∷ b ∷ s) h = rw h

rejoin : (c : ℕ) → IsByte c → (16 * (c / 16) + c % 16) % 256 ≡ c
rejoin c h = omega arith

decode_escape :
    (c : ℕ) (s : Bytes)
    → IsByte c
    → urldecode (b'%' ∷ hex_digit (c / 16) ∷ hex_digit (c % 16) ∷ s) ≡ c ∷ urldecode s
unfolding urldecode
decode_escape c s h =
    rw
      (
        hex_digit-isxdigit (c / 16) (omega arith),
        hex_digit-isxdigit (c % 16) (omega arith),
        hex_value-hex_digit (c / 16) (omega arith),
        hex_value-hex_digit (c % 16) (omega arith),
      )
      (ap (λ x. x ∷ urldecode s) (rejoin c h))

unreserved_plain : (c : ℕ) → is_unreserved c ≡ true → (c == b'%') ≡ false
unreserved_plain c h = ground arith

unreserved_same : (c : ℕ) → is_unreserved c ≡ true → plus_to_blank c ≡ c
unfolding plus_to_blank
unreserved_same c h = ground arith

is_blank : (c : ℕ) → (c == b' ') ≡ true → c ≡ b' '
is_blank c h = ground arith

-- Every list of bytes that an encoder for forms writes is read back by `urldecode`.
pub urldecode-urlencode : (s : Bytes) → All IsByte s → urldecode (urlencode s) ≡ s
unfolding urlencode plus_to_blank
urldecode-urlencode [] h = unfold urldecode in refl
urldecode-urlencode (c ∷ s) (hc, hs) = elim (Bool-cases (is_unreserved c)) [
  | inl e ↦ rw (
    e,
    decode_plain c (urlencode s) (unreserved_plain c e),
    unreserved_same c e,
    urldecode-urlencode s hs,
  )
  | inr e ↦ elim (Bool-cases (c == b' ')) [
    | inl blank ↦
        rw (e, blank, decode_plain b'+' (urlencode s) refl, urldecode-urlencode s hs)
          (ap (λ x. x ∷ s) (sym (is_blank c blank)))
    | inr other ↦ rw (e, other, decode_escape c (urlencode s) hc, urldecode-urlencode s hs)
  ]
]

-- `urldecode` never writes more bytes than it reads, so that a buffer of the input's length is enough.
pub length-urldecode : (s : Bytes) → length (urldecode s) ≤ length s
unfolding urldecode
length-urldecode [] = omega arith
length-urldecode (c ∷ []) = omega arith
length-urldecode (c ∷ a ∷ []) = omega arith
length-urldecode (c ∷ a ∷ b ∷ s) = ground (arith, length-urldecode s, length-urldecode (a ∷ b ∷ s))
