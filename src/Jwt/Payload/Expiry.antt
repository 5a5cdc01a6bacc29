-- ===== src/Jwt/Payload/Expiry.antt =====
-- Where `jwt_validate` finds the expiry in a payload that `create_jwt_for_user` printed.
use cbank_system.Prelude.{ℕ, ◌≡◌, refl, ◌∙◌, false, [], ◌∷◌, ◌++◌, some, arith}
use cbank_system.Prelude.Int.{pos}
use cbank_system.Text.{Bytes, Lacks, strstr, starts_with, print_nat, print_int}
use cbank_system.Text.Laws.{strstr-behind, strstr_step}
use cbank_system.Jwt.Payload.{exp_key, payload_text}
use cbank_system.Jwt.Payload.Read.{IsPlain, Lacks-of_IsPlain}

-- A quoted text is not the key of the expiry, if it is followed by a comma.
no_key_here :
    (s r : Bytes) → Lacks b'"' s → starts_with exp_key (b'"' ∷ (s ++ b'"' ∷ b',' ∷ r)) ≡ false
unfolding starts_with
no_key_here [] r h = refl
no_key_here (c ∷ []) r h = ground arith
no_key_here (c ∷ d ∷ []) r h = ground arith
no_key_here (c ∷ d ∷ e ∷ []) r h = ground arith
no_key_here (c ∷ d ∷ e ∷ f ∷ s) r h = ground arith

-- The search goes past such a text.
strstr-quoted :
    (s r : Bytes)
    → Lacks b'"' s
    → strstr (b'"' ∷ (s ++ b'"' ∷ b',' ∷ b'"' ∷ r)) exp_key ≡ strstr (b'"' ∷ r) exp_key
unfolding starts_with
strstr-quoted s r h =
    strstr_step exp_key b'"' _ (no_key_here s (b'"' ∷ r) h)
    ∙ strstr-behind b'"' _ s _ h
    ∙ strstr_step exp_key b'"' (b',' ∷ b'"' ∷ r) refl
    ∙ strstr_step exp_key b',' (b'"' ∷ r) refl

-- The search for the expiry's key ends at the expiry, if the subject and the name are plain.
pub find_exp :
    (user_id name : Bytes) (n : ℕ)
    → IsPlain user_id
    → IsPlain name
    → strstr (payload_text user_id name (pos n)) exp_key
      ≡ some (exp_key ++ (print_nat n ++ b'}' ∷ []))
unfolding payload_text print_int strstr starts_with
find_exp user_id name n plain_id plain_name =
    let id_quoted = strstr-quoted user_id _ (Lacks-of_IsPlain b'"' (λ c p. p.0) user_id plain_id) in
    let name_quoted = strstr-quoted name _ (Lacks-of_IsPlain b'"' (λ c p. p.0) name plain_name) in
    id_quoted ∙ name_quoted
