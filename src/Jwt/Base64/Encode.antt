-- ===== src/Jwt/Base64/Encode.antt =====
-- What `base64_encode` writes, in plain arithmetic.
use cbank_system.Prelude.{
  ℕ, zero, suc, ◌+◌, ◌-◌, ◌*◌, ◌/◌, ◌%◌, ◌^◌, ◌≤◌, ◌<◌, ◌≡◌, ◌≢◌, refl, ap, ◌∙◌, [], ◌∷◌, ◌++◌,
  arith, length, get_or, ◌==◌, if◌then◌else◌, All, set,
}
use cbank_system.Prelude.Bits.{mask_six}
use native.Mathlib.Numerals.{add-four}
use cbank_system.Text.{Bytes}
use cbank_system.Jwt.Base64.{
  b64_table, sextet, encode_triple, encode_loop, encoded_len, pad_loop, base64_encode,
}

abbrev pub IsByte : ℕ → Type 0
IsByte b = b < 256

-- The character of a value below 64.
unfoldable pub letter : ℕ → ℕ
letter v = get_or b64_table v 0

-- The four characters of three octets.
unfoldable pub quad : ℕ → ℕ → ℕ → Bytes
quad a b c =
    letter (a / 4)
    ∷ letter (a % 4 * 16 + b / 16)
    ∷ letter (b % 16 * 4 + c / 64)
    ∷ letter (c % 64)
    ∷ []

-- The standard encoding: groups of three octets, and '=' for each octet that is missing.
unfoldable pub encoding : Bytes → Bytes
encoding [] = []
encoding (a ∷ []) = letter (a / 4) ∷ letter (a % 4 * 16) ∷ b'=' ∷ b'=' ∷ []
encoding (a ∷ b ∷ []) =
    letter (a / 4) ∷ letter (a % 4 * 16 + b / 16) ∷ letter (b % 16 * 4) ∷ b'=' ∷ []
encoding (a ∷ b ∷ c ∷ rest) = quad a b c ++ encoding rest

sextet-letter : (triple shift v : ℕ) → triple / 2 ^ shift % 64 ≡ v → sextet triple shift ≡ letter v
unfolding sextet letter
sextet-letter triple shift v h = ap (λ t. get_or b64_table t 0) (mask_six _ ∙ h)

encode_triple-quad : (a b c : ℕ) → IsByte a → IsByte b → IsByte c → encode_triple a b c ≡ quad a b c
unfolding encode_triple quad
encode_triple-quad a b c ha hb hc =
    let t = (a * 2 ^ 16 + b * 2 ^ 8 + c) % 2 ^ 32 in
    cc (
      sextet-letter t 18 (a / 4) (omega arith),
      sextet-letter t 12 (a % 4 * 16 + b / 16) (omega arith),
      sextet-letter t 6 (b % 16 * 4 + c / 64) (omega arith),
      sextet-letter t 0 (c % 64) (omega arith),
    )

-- A write behind the first four characters leaves them alone.
set_behind_four :
    (w x y z : ℕ) (out : Bytes) (i v : ℕ)
    → set (w ∷ x ∷ y ∷ z ∷ out) (i + 4) v ≡ w ∷ x ∷ y ∷ z ∷ set out i v
set_behind_four w x y z out i v = rw add-four

pad_loop_behind_four :
    (w x y z n k : ℕ) (out : Bytes)
    → k ≤ n
    → pad_loop (n + 4) k (w ∷ x ∷ y ∷ z ∷ out) ≡ w ∷ x ∷ y ∷ z ∷ pad_loop n k out
unfolding pad_loop
pad_loop_behind_four w x y z n zero out h = refl
pad_loop_behind_four w x y z n (suc k) out h =
    let at : n + 4 - 1 - k ≡ n - 1 - k + 4 = omega arith in
    rw (pad_loop_behind_four w x y z n k out (omega arith), at) (set_behind_four w x y z _ _ _)

encoded_len-add : (n : ℕ) → encoded_len (n + 3) ≡ encoded_len n + 4
unfolding encoded_len
encoded_len-add n = omega arith

-- The last step of `base64_encode`, as a function of the input's length and of what the loop wrote.
pad_to : ℕ → Bytes → Bytes
pad_to n out = if n % 3 == 0 then out else pad_loop (encoded_len n) (3 - n % 3) out

base64_encode-pad_to :
    (input : Bytes) → base64_encode input ≡ pad_to (length input) (encode_loop input)
unfolding base64_encode pad_to
base64_encode-pad_to input = refl

pad_to_behind_four :
    (w x y z n : ℕ) (out : Bytes)
    → pad_to (n + 3) (w ∷ x ∷ y ∷ z ∷ out) ≡ w ∷ x ∷ y ∷ z ∷ pad_to n out
unfolding pad_to
pad_to_behind_four w x y z n out =
    let same : (n + 3) % 3 ≡ n % 3 = omega arith in
    let room : (n % 3 ≢ 0) → 3 - n % 3 ≤ encoded_len n = unfold encoded_len in λ h. omega arith in
    rw (same, encoded_len-add n)
      (ground (arith, pad_loop_behind_four w x y z (encoded_len n) (3 - n % 3) out))

-- A whole group in front is encoded by itself.
base64_encode_step :
    (a b c : ℕ) (rest : Bytes)
    → base64_encode (a ∷ b ∷ c ∷ rest) ≡ encode_triple a b c ++ base64_encode rest
unfolding encode_loop encode_triple
base64_encode_step a b c rest =
    let n : suc (suc (suc (length rest))) ≡ length rest + 3 = omega arith in
    base64_encode-pad_to (a ∷ b ∷ c ∷ rest)
    ∙ rw (n, base64_encode-pad_to rest)
        (pad_to_behind_four _ _ _ _ (length rest) (encode_loop rest))

-- A last group of one or two octets.
pad_to_one : (a : ℕ) → IsByte a → pad_to 1 (encode_loop (a ∷ [])) ≡ encoding (a ∷ [])
unfolding encode_loop
pad_to_one a ha =
    rw (encode_triple-quad a 0 0 ha (omega arith) (omega arith))
      (unfold pad_to pad_loop encoded_len quad encoding in cc (ap letter (last_bits a)))
  where
    last_bits : (v : ℕ) → v % 4 * 16 + 0 / 16 ≡ v % 4 * 16
    last_bits v = omega arith

pad_to_two :
    (a b : ℕ) → IsByte a → IsByte b → pad_to 2 (encode_loop (a ∷ b ∷ [])) ≡ encoding (a ∷ b ∷ [])
unfolding encode_loop
pad_to_two a b ha hb =
    rw (encode_triple-quad a b 0 ha hb (omega arith))
      (unfold pad_to pad_loop encoded_len quad encoding in cc (ap letter (last_bits b)))
  where
    last_bits : (v : ℕ) → v % 16 * 4 + 0 / 64 ≡ v % 16 * 4
    last_bits v = omega arith

-- On bytes, `base64_encode` gives the standard encoding: the loop, the buffer length and the padding
-- loop together write '=' exactly for the octets that the last group lacks.
pub base64_encode-encoding :
    (input : Bytes) → All IsByte input → base64_encode input ≡ encoding input
unfolding encoding
base64_encode-encoding [] h = unfold base64_encode encode_loop in refl
base64_encode-encoding (a ∷ []) (ha, _) = base64_encode-pad_to (a ∷ []) ∙ pad_to_one a ha
base64_encode-encoding (a ∷ b ∷ []) (ha, (hb, _)) =
    base64_encode-pad_to (a ∷ b ∷ []) ∙ pad_to_two a b ha hb
base64_encode-encoding (a ∷ b ∷ c ∷ rest) (ha, (hb, (hc, h))) = rw (
  base64_encode_step a b c rest,
  encode_triple-quad a b c ha hb hc,
  base64_encode-encoding rest h,
)
