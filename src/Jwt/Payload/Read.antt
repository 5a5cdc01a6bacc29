-- ===== src/Jwt/Payload/Read.antt =====
-- What `parse_jwt_payload` reads from the payload that `create_jwt_for_user` writes.
use cbank_system.Prelude.{
  ℕ, ◌≤◌, ◌≡◌, ◌≢◌, ap, ◌∙◌, [], ◌∷◌, ◌++◌, some, true, arith, append-nil, All, All-append,
  append_assoc, length, take_of_le,
}
use cbank_system.Prelude.Int.{pos}
use cbank_system.Prelude.Ret.{ok}
use cbank_system.Text.{
  Bytes, codes, Lacks, bytes_eq, tokens, is_char, is_digit, print_nat, atol-print_nat_end,
  print_nat-IsDigit, print_int,
}
use cbank_system.Text.Laws.{strchr-append, tokens-append, tokens-last}
use cbank_system.Utils.{remove_char, remove_char-append, remove_char-Lacks}
use cbank_system.Jwt.Payload.{
  JwtData, set_claim, read_claim, read_claims, no_claims, parse_jwt_payload, payload_text,
  user_payload,
}

-- A text without a character that the payload's syntax uses.
abbrev pub IsPlain : Bytes → Type 0
IsPlain = All (λ c. (c ≢ b'"') × (c ≢ b',') × (c ≢ b'}') × (c ≢ 0))

module _ (b : ℕ) (of_plain : (c : ℕ) → (c ≢ b'"') × (c ≢ b',') × (c ≢ b'}') × (c ≢ 0) → c ≢ b) where
  pub Lacks-of_IsPlain : (s : Bytes) → IsPlain s → Lacks b s
  Lacks-of_IsPlain [] h = tt
  Lacks-of_IsPlain (c ∷ s) (hc, h) = (of_plain c hc, Lacks-of_IsPlain s h)

IsPlain-of_digits : (s : Bytes) → All (λ c. is_digit c ≡ true) s → IsPlain s
unfolding is_digit
IsPlain-of_digits [] h = tt
IsPlain-of_digits (c ∷ s) (hc, h) = (ground arith, IsPlain-of_digits s h)

-- One claim: a quoted key, a colon, and a value with or without quotes.
read_claim_step :
    (key value : Bytes) (jwt : JwtData)
    → Lacks b':' key
    → read_claim jwt (key ++ b':' ∷ value)
      ≡ set_claim (remove_char key b'"') (remove_char value b'"') jwt
unfolding read_claim
read_claim_step key value jwt h = rw (strchr-append b':' key value h, read_claim)

-- A quoted value loses its quotes.
unquote : (s : Bytes) → IsPlain s → remove_char (b'"' ∷ (s ++ b'"' ∷ [])) b'"' ≡ s
unfolding remove_char
unquote s h =
    let kept = remove_char-Lacks s b'"' (Lacks-of_IsPlain b'"' (λ c p. p.0) s h) in
    rw (remove_char-append s (b'"' ∷ []) b'"', kept) (append-nil s)

abbrev quoted : Bytes → Bytes
quoted s = b'"' ∷ (s ++ b'"' ∷ [])

abbrev claim : Bytes → Bytes → Bytes
claim key value = quoted key ++ b':' ∷ value

-- The text of a payload, claim by claim.
payload_text-claims :
    (user_id name : Bytes) (n : ℕ)
    → payload_text user_id name (pos n)
      ≡ b'{'
        ∷ ((claim (codes "sub") (quoted user_id)
              ++ b','
                ∷ (claim (codes "name") (quoted name) ++ b',' ∷ claim (codes "exp") (print_nat n)))
            ++ b'}' ∷ [])
unfolding payload_text print_int
payload_text-claims user_id name n = simp append_assoc

Lacks-quoted : (b : ℕ) (s : Bytes) → b'"' ≢ b → Lacks b s → Lacks b (quoted s)
Lacks-quoted b s h k = (h, All-append _ s (b'"' ∷ []) k (h, tt))

Lacks-claim :
    (b : ℕ) (key value : Bytes)
    → b'"' ≢ b
    → b':' ≢ b
    → Lacks b key
    → Lacks b value
    → Lacks b (claim key value)
Lacks-claim b key value h k hk hv =
    All-append _ (quoted key) (b':' ∷ value) (Lacks-quoted b key h hk) (k, hv)

abbrev sub_claim : Bytes → Bytes
sub_claim user_id = claim (codes "sub") (quoted user_id)

abbrev name_claim : Bytes → Bytes
name_claim name = claim (codes "name") (quoted name)

abbrev exp_claim : ℕ → Bytes
exp_claim n = claim (codes "exp") (print_nat n)

abbrev body : Bytes → Bytes → ℕ → Bytes
body user_id name n = sub_claim user_id ++ b',' ∷ (name_claim name ++ b',' ∷ exp_claim n)

-- The claims that a payload carries.
abbrev pub claims_of : Bytes → Bytes → ℕ → JwtData
claims_of user_id name n = record { exp = pos n; sub = some user_id; name = some name }

-- A key is read without its quotes.
read_quoted-claim :
    (key value : Bytes) (jwt : JwtData)
    → Lacks b':' (quoted key)
    → IsPlain key
    → read_claim jwt (claim key value) ≡ set_claim key (remove_char value b'"') jwt
read_quoted-claim key value jwt h plain =
    read_claim_step (quoted key) value jwt h
    ∙ ap (λ k. set_claim k (remove_char value b'"') jwt) (unquote key plain)

module _ (user_id name : Bytes) (n : ℕ) (plain_id : IsPlain user_id)
    (plain_name : IsPlain name) where
  IsPlain-exp : IsPlain (print_nat n)
  IsPlain-exp = IsPlain-of_digits (print_nat n) (print_nat-IsDigit n)

  -- The three claims are read one after the other, each setting its field.
  read_claims_lem :
      read_claims no_claims (sub_claim user_id ∷ name_claim name ∷ exp_claim n ∷ [])
      ≡ claims_of user_id name n
  unfolding read_claims set_claim bytes_eq
  read_claims_lem = rw (
    read_quoted-claim (codes "sub") (quoted user_id) no_claims (omega arith) (omega arith),
    unquote user_id plain_id,
    read_quoted-claim (codes "name") (quoted name) _ (omega arith) (omega arith),
    unquote name plain_name,
    read_quoted-claim (codes "exp") (print_nat n) _ (omega arith) (omega arith),
    remove_char-Lacks (print_nat n) b'"' (Lacks-of_IsPlain b'"' (λ c p. p.0) _ IsPlain-exp),
    atol-print_nat_end n,
  )

  module _ (b : ℕ) (no_quote : b'"' ≢ b) (no_colon : b':' ≢ b) (no_sub : Lacks b (codes "sub"))
      (no_name : Lacks b (codes "name")) (no_exp : Lacks b (codes "exp"))
      (of_plain : (c : ℕ) → (c ≢ b'"') × (c ≢ b',') × (c ≢ b'}') × (c ≢ 0) → c ≢ b) where
    Lacks-claims : Lacks b (sub_claim user_id) × Lacks b (name_claim name) × Lacks b (exp_claim n)
    Lacks-claims = (
      Lacks-claim b (codes "sub") (quoted user_id) no_quote no_colon no_sub
          (Lacks-quoted b user_id no_quote (Lacks-of_IsPlain b of_plain user_id plain_id)),
      Lacks-claim b (codes "name") (quoted name) no_quote no_colon no_name
          (Lacks-quoted b name no_quote (Lacks-of_IsPlain b of_plain name plain_name)),
      Lacks-claim b (codes "exp") (print_nat n) no_quote no_colon no_exp
          (Lacks-of_IsPlain b of_plain (print_nat n) IsPlain-exp),
    )

  tokens-body :
      tokens (is_char b',') (body user_id name n)
      ≡ sub_claim user_id ∷ name_claim name ∷ exp_claim n ∷ []
  tokens-body =
      let (h1, h2, h3) =
        Lacks-claims b',' (λ e. omega arith) (λ e. omega arith) (omega arith) (omega arith)
          (omega arith) (λ c p. p.1) in
      tokens-append b',' (sub_claim user_id) _ (λ e. cc) h1
      ∙ ap (λ ts. sub_claim user_id ∷ ts)
          (tokens-append b',' (name_claim name) (exp_claim n) (λ e. cc) h2
            ∙ ap (λ ts. name_claim name ∷ ts) (tokens-last b',' (exp_claim n) (λ e. cc) h3))

  Lacks-body : Lacks b'}' (body user_id name n)
  Lacks-body =
      let (h1, h2, h3) =
        Lacks-claims b'}' (λ e. omega arith) (λ e. omega arith) (omega arith) (omega arith)
          (omega arith) (λ c p. p.2) in
      All-append _ (sub_claim user_id) _ h1 (
        (λ e. omega arith),
        All-append _ (name_claim name) (b',' ∷ exp_claim n) h2 ((λ e. omega arith), h3),
      )

-- A payload that fits its buffer is read back, claim by claim: the subject and the name, where they
-- hold no quote, comma, closing brace or zero byte, and the expiry.
pub parse_jwt_payload-user_payload :
    (user_id name : Bytes) (n : ℕ)
    → IsPlain user_id
    → IsPlain name
    → length (payload_text user_id name (pos n)) ≤ 511
    → parse_jwt_payload (user_payload user_id name (pos n)) ≡ ok (claims_of user_id name n)
unfolding user_payload parse_jwt_payload
parse_jwt_payload-user_payload user_id name n plain_id plain_name fits = rw (
  take_of_le 511 (payload_text user_id name (pos n)) fits,
  payload_text-claims user_id name n,
  strchr-append b'}' (body user_id name n) [] (Lacks-body user_id name n plain_id plain_name),
  tokens-body user_id name n plain_id plain_name,
  read_claims_lem user_id name n plain_id plain_name,
)

-- What holds of the two texts, of digits and of the characters of the format holds of a payload.
module _ (P : ℕ → Type 0) (of_digit : (c : ℕ) → is_digit c ≡ true → P c) where
  All_of_digits : (s : Bytes) → All (λ c. is_digit c ≡ true) s → All P s
  All_of_digits [] h = tt
  All_of_digits (c ∷ s) (hc, h) = (of_digit c hc, All_of_digits s h)

  pub payload_text-All :
      (user_id name : Bytes) (n : ℕ)
      → All P user_id
      → All P name
      → All P (codes "{\"sub\":\"")
      → All P (codes "\",\"name\":\"")
      → All P (codes "\",\"exp\":")
      → All P (codes "}")
      → All P (payload_text user_id name (pos n))
  unfolding payload_text print_int
  payload_text-All user_id name n hi hn h1 h2 h3 h4 = All-append P (codes "{\"sub\":\"") _ h1 (
      All-append P user_id _ hi (
        All-append P (codes "\",\"name\":\"") _ h2 (
          All-append P name _ hn (
            All-append P (codes "\",\"exp\":") _ h3
              (All-append P (print_nat n) _ (All_of_digits _ (print_nat-IsDigit n)) h4)))))

pub payload_text-ne_nil : (user_id name : Bytes) (n : ℕ) → payload_text user_id name (pos n) ≢ []
payload_text-ne_nil user_id name n = rw (payload_text-claims user_id name n) (λ e. cc)
