-- ===== src/Text/Tokens.antt =====
-- `strtok_r`, one call and the loop over all calls.
use cbank_system.Prelude.{
  ℕ, Bool, true, false, not, List, [], ◌∷◌, Option, none, some, ◌≡◌, refl, inl, inr, arith, ◌==◌,
  if◌then◌else◌, Bool-cases, drop,
}
use cbank_system.Text.Compare.{Bytes}

unfoldable pub drop_while : (ℕ → Bool) → Bytes → Bytes
drop_while p [] = []
drop_while p (c ∷ s) = if p c then drop_while p s else c ∷ s

unfoldable pub take_while : (ℕ → Bool) → Bytes → Bytes
take_while p [] = []
take_while p (c ∷ s) = if p c then c ∷ take_while p s else []

-- The delimiter set of one byte.
abbrev pub is_char : ℕ → ℕ → Bool
is_char b c = c == b

-- One call: delimiters are skipped, and the token ends at the next one, which is consumed.
unfoldable pub strtok : (ℕ → Bool) → Bytes → Option (List ℕ × List ℕ)
unfolding drop_while take_while
strtok d s = elim (drop_while d s) [
  | [] ↦ none
  | c ∷ r ↦ some (take_while (λ b. not (d b)) (c ∷ r), drop 1 (drop_while (λ b. not (d b)) (c ∷ r)))
]

-- An empty token is none.
keep : Bytes → List Bytes → List Bytes
keep [] ts = ts
keep (c ∷ t) ts = (c ∷ t) ∷ ts

-- The token that is being read, and those behind it.
cut : (ℕ → Bool) → Bytes → List ℕ × List (List ℕ)
unfolding keep
cut d [] = ([], [])
cut d (c ∷ s) = let rest = cut d s in if d c then ([], keep rest.0 rest.1) else (c ∷ rest.0, rest.1)

-- The tokens that `while ((token = strtok_r(rest, delims, &rest)))` goes through.
unfoldable pub tokens : (ℕ → Bool) → Bytes → List Bytes
unfolding cut
tokens d s = keep (cut d s).0 (cut d s).1

cut-take_while : (d : ℕ → Bool) (s : Bytes) → (cut d s).0 ≡ take_while (λ b. not (d b)) s
unfolding cut take_while
cut-take_while d [] = refl
cut-take_while d (c ∷ s) = ground (arith, cut-take_while d s)

cut-drop_while :
    (d : ℕ → Bool) (s : Bytes) → (cut d s).1 ≡ tokens d (drop 1 (drop_while (λ b. not (d b)) s))
unfolding cut drop_while
cut-drop_while d [] = unfold tokens in refl
cut-drop_while d (c ∷ s) = elim (Bool-cases (d c)) [
  | inl e ↦ unfold tokens in ground arith
  | inr e ↦ ground (arith, cut-drop_while d s)
]

tokens_cons_skip : (d : ℕ → Bool) (c : ℕ) (s : Bytes) → d c ≡ true → tokens d (c ∷ s) ≡ tokens d s
unfolding tokens
tokens_cons_skip d c s e = ground arith

tokens_cons_keep :
    (d : ℕ → Bool) (c : ℕ) (s : Bytes)
    → d c ≡ false
    → tokens d (c ∷ s)
      ≡ (c ∷ take_while (λ b. not (d b)) s) ∷ tokens d (drop 1 (drop_while (λ b. not (d b)) s))
tokens_cons_keep d c s e =
    rw (← cut-take_while d s, ← cut-drop_while d s) (unfold tokens cut in ground arith)

-- The loop is what repeated calls of `strtok` give.
pub tokens_step :
    (d : ℕ → Bool) (s : Bytes)
    → tokens d s ≡ elim (strtok d s) [ none ↦ [] | some (t, r) ↦ t ∷ tokens d r ]
unfolding strtok
tokens_step d [] = unfold tokens in refl
tokens_step d (c ∷ s) = elim (Bool-cases (d c)) [
  | inl e ↦ rw (tokens_cons_skip d c s e, e) (tokens_step d s)
  | inr e ↦ rw (tokens_cons_keep d c s e, e) (rw e)
]
