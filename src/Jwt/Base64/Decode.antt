-- ===== src/Jwt/Base64/Decode.antt =====
-- `base64decode` on any input, and on what `encoding` writes.
use cbank_system.Prelude.{
  ◌⊎◌, ℕ, suc, ◌+◌, ◌-◌, ◌*◌, ◌/◌, ◌%◌, ◌≤◌, ◌<◌, ◌≡◌, ◌≢◌, refl, [], ◌∷◌, ◌++◌, arith, length,
  length-append, All, ◌==◌, if◌then◌else◌, false, Bool-cases, inl, inr,
}
use cbank_system.Prelude.Ret.{null, ok}
use cbank_system.Prelude.Bits.{agree_below, eq_of_agree, agree_square, eq_of_agree_square}
use cbank_system.Text.{Bytes}
use cbank_system.Jwt.Base64.{
  decode_writes, b64_dec_table, byte_one, byte_two, byte_three, unless_pad, decode_quad,
  any_invalid, decode_loop, decoded_len,
}
use cbank_system.Jwt.Base64.Encode.{IsByte, letter, quad, encoding}

-- The decoding table inverts the encoding table.
dec-letter : (v : ℕ) → v < 64 → b64_dec_table (letter v) ≡ v
unfolding agree_below letter b64_dec_table
dec-letter = eq_of_agree (λ v. b64_dec_table (letter v)) (λ v. v) 64 refl

letter-ne_pad : (v : ℕ) → v < 64 → letter v ≢ b'='
unfolding agree_below letter
letter-ne_pad v h e =
    ground (arith, eq_of_agree (λ w. if letter w == b'=' then 1 else 0) (λ w. 0) 64 refl v h)

byte_one_lem : (i j : ℕ) → i < 64 → j < 64 → byte_one i j ≡ i * 4 + j / 16
unfolding agree_square byte_one
byte_one_lem = eq_of_agree_square byte_one (λ i j. i * 4 + j / 16) 64 64 refl

byte_two_lem : (i j : ℕ) → i < 64 → j < 64 → byte_two i j ≡ i % 16 * 16 + j / 4
unfolding agree_square byte_two
byte_two_lem = eq_of_agree_square byte_two (λ i j. i % 16 * 16 + j / 4) 64 64 refl

byte_three_lem : (i j : ℕ) → i < 64 → j < 64 → byte_three i j ≡ i % 4 * 64 + j
unfolding agree_square byte_three
byte_three_lem = eq_of_agree_square byte_three (λ i j. i % 4 * 64 + j) 64 64 refl

-- One round of the decoder on the four characters of three octets.
quad_valid :
    (v0 v1 v2 v3 : ℕ)
    → v0 < 64
    → v1 < 64
    → v2 < 64
    → v3 < 64
    → any_invalid (letter v0) (letter v1) (letter v2) (letter v3) ≡ false
unfolding any_invalid
quad_valid v0 v1 v2 v3 h0 h1 h2 h3 =
    ground (arith, dec-letter v0, dec-letter v1, dec-letter v2, dec-letter v3)

decode_quad-quad :
    (a b c : ℕ)
    → IsByte a
    → IsByte b
    → IsByte c
    → decode_quad
        (letter (a / 4))
        (letter (a % 4 * 16 + b / 16))
        (letter (b % 16 * 4 + c / 64))
        (letter (c % 64))
      ≡ a ∷ b ∷ c ∷ []
unfolding decode_quad unless_pad
decode_quad-quad a b c ha hb hc =
    let v0 = a / 4 in
    let v1 = a % 4 * 16 + b / 16 in
    let v2 = b % 16 * 4 + c / 64 in
    let v3 = c % 64 in
    rw
      (
        dec-letter v0 (omega arith),
        dec-letter v1 (omega arith),
        dec-letter v2 (omega arith),
        dec-letter v3 (omega arith),
      )
      (ground (
        arith,
        letter-ne_pad v2,
        letter-ne_pad v3,
        byte_one_lem v0 v1,
        byte_two_lem v1 v2,
        byte_three_lem v2 v3,
      ))

-- The last group, where '=' stands for what is missing.
decode_loop_one :
    (a : ℕ)
    → IsByte a
    → decode_loop (letter (a / 4) ∷ letter (a % 4 * 16) ∷ b'=' ∷ b'=' ∷ []) ≡ ok (a ∷ [])
unfolding decode_loop decode_quad unless_pad any_invalid
decode_loop_one a ha =
    rw (dec-letter (a / 4) (omega arith), dec-letter (a % 4 * 16) (omega arith))
      (unfold b64_dec_table in ground (arith, byte_one_lem (a / 4) (a % 4 * 16)))

decode_loop_two :
    (a b : ℕ)
    → IsByte a
    → IsByte b
    → decode_loop (letter (a / 4) ∷ letter (a % 4 * 16 + b / 16) ∷ letter (b % 16 * 4) ∷ b'=' ∷ [])
      ≡ ok (a ∷ b ∷ [])
unfolding decode_loop decode_quad unless_pad any_invalid
decode_loop_two a b ha hb =
    rw
      (
        dec-letter (a / 4) (omega arith),
        dec-letter (a % 4 * 16 + b / 16) (omega arith),
        dec-letter (b % 16 * 4) (omega arith),
      )
      (unfold b64_dec_table in
        ground (
          arith,
          letter-ne_pad (b % 16 * 4),
          byte_one_lem (a / 4) (a % 4 * 16 + b / 16),
          byte_two_lem (a % 4 * 16 + b / 16) (b % 16 * 4),
        ))

decode_loop-quad :
    (a b c : ℕ) (s out : Bytes)
    → IsByte a
    → IsByte b
    → IsByte c
    → decode_loop s ≡ ok out
    → decode_loop (quad a b c ++ s) ≡ ok (a ∷ b ∷ c ∷ out)
unfolding decode_loop quad
decode_loop-quad a b c s out ha hb hc e =
    let v1 = a % 4 * 16 + b / 16 in
    let v2 = b % 16 * 4 + c / 64 in
    let valid =
      quad_valid (a / 4) v1 v2 (c % 64) (omega arith) (omega arith) (omega arith) (omega arith) in
    rw (valid, e, decode_quad-quad a b c ha hb hc)

-- The decoder gives the octets of an encoding back.
pub decode_loop-encoding :
    (input : Bytes) → All IsByte input → decode_loop (encoding input) ≡ ok input
unfolding encoding
decode_loop-encoding [] h = unfold decode_loop in refl
decode_loop-encoding (a ∷ []) (ha, _) = decode_loop_one a ha
decode_loop-encoding (a ∷ b ∷ []) (ha, (hb, _)) = decode_loop_two a b ha hb
decode_loop-encoding (a ∷ b ∷ c ∷ rest) (ha, (hb, (hc, h))) =
    decode_loop-quad a b c (encoding rest) rest ha hb hc (decode_loop-encoding rest h)

-- The buffer: no quad writes more than three bytes, and the last one leaves out what `out_len` does.
length-decode_quad :
    (c0 c1 c2 c3 : ℕ)
    → length (decode_quad c0 c1 c2 c3)
      ≡ 1 + (if c2 == b'=' then 0 else 1) + (if c3 == b'=' then 0 else 1)
unfolding decode_quad unless_pad
length-decode_quad c0 c1 c2 c3 = ground arith

decoded_len_last :
    (c0 c1 c2 c3 : ℕ)
    → decoded_len (c0 ∷ c1 ∷ c2 ∷ c3 ∷ [])
      ≡ 1 + (if c2 == b'=' then 0 else 1) + (if c3 == b'=' then 0 else 1)
unfolding decoded_len
decoded_len_last c0 c1 c2 c3 = ground arith

decoded_len_behind :
    (c0 c1 c2 c3 d0 d1 d2 d3 : ℕ) (rest : Bytes)
    → decoded_len (c0 ∷ c1 ∷ c2 ∷ c3 ∷ d0 ∷ d1 ∷ d2 ∷ d3 ∷ rest)
      ≡ decoded_len (d0 ∷ d1 ∷ d2 ∷ d3 ∷ rest) + 3
unfolding decoded_len
decoded_len_behind c0 c1 c2 c3 d0 d1 d2 d3 rest =
    let n = suc (suc (suc (suc (length rest)))) in
    let last : suc (suc (suc (suc n))) - 1 ≡ suc (suc (suc (suc (n - 1)))) = omega arith in
    let before : suc (suc (suc (suc n))) - 2 ≡ suc (suc (suc (suc (n - 2)))) = omega arith in
    rw (last, before) (ground arith)

-- On whole quads the loop returns what it has written, or a null pointer.
pub decode_loop-cases :
    (s : Bytes) → length s % 4 ≡ 0 → (decode_loop s ≡ ok (decode_writes s)) ⊎ (decode_loop s ≡ null)
unfolding decode_loop decode_writes
decode_loop-cases [] h = inl refl
decode_loop-cases (c0 ∷ []) h = absurd (omega arith)
decode_loop-cases (c0 ∷ c1 ∷ []) h = absurd (omega arith)
decode_loop-cases (c0 ∷ c1 ∷ c2 ∷ []) h = absurd (omega arith)
decode_loop-cases (c0 ∷ c1 ∷ c2 ∷ c3 ∷ s) h = elim (Bool-cases (any_invalid c0 c1 c2 c3)) [
  | inl bad ↦ inr (rw bad refl)
  | inr good ↦ elim (decode_loop-cases s (omega arith)) [
    | inl e ↦ inl (rw (good, e) refl)
    | inr e ↦ inr (rw (good, e) refl)
  ]
]

-- What the loop writes, to its end or to an invalid character, stays inside the `out_len` bytes.
pub length-decode_writes :
    (s : Bytes) → s ≢ [] → length s % 4 ≡ 0 → length (decode_writes s) ≤ decoded_len s
unfolding decode_writes
length-decode_writes [] h e = absurd (h refl)
length-decode_writes (c0 ∷ []) h e = absurd (omega arith)
length-decode_writes (c0 ∷ c1 ∷ []) h e = absurd (omega arith)
length-decode_writes (c0 ∷ c1 ∷ c2 ∷ []) h e = absurd (omega arith)
length-decode_writes (c0 ∷ c1 ∷ c2 ∷ c3 ∷ []) h e = ground (
  arith,
  decoded_len_last c0 c1 c2 c3,
  length-decode_quad c0 c1 c2 c3,
  length-append (decode_quad c0 c1 c2 c3) [],
)
length-decode_writes (c0 ∷ c1 ∷ c2 ∷ c3 ∷ d0 ∷ []) h e = absurd (omega arith)
length-decode_writes (c0 ∷ c1 ∷ c2 ∷ c3 ∷ d0 ∷ d1 ∷ []) h e = absurd (omega arith)
length-decode_writes (c0 ∷ c1 ∷ c2 ∷ c3 ∷ d0 ∷ d1 ∷ d2 ∷ []) h e = absurd (omega arith)
length-decode_writes (c0 ∷ c1 ∷ c2 ∷ c3 ∷ d0 ∷ d1 ∷ d2 ∷ d3 ∷ rest) h e =
    let behind = d0 ∷ d1 ∷ d2 ∷ d3 ∷ rest in
    let ih = length-decode_writes (d0 ∷ d1 ∷ d2 ∷ d3 ∷ rest) (λ f. cc) (omega arith) in
    elim (Bool-cases (any_invalid c0 c1 c2 c3)) [
      | inl bad ↦ rw (bad, decode_writes) (omega arith)
      | inr good ↦
          rw (good, decode_writes)
            (ground (
              arith,
              decoded_len_behind c0 c1 c2 c3 d0 d1 d2 d3 rest,
              length-append (decode_quad c0 c1 c2 c3) (decode_writes behind),
              length-decode_quad c0 c1 c2 c3,
            ))
    ]
