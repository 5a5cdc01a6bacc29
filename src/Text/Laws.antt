-- ===== src/Text/Laws.antt =====
-- Laws of the string functions: searching and splitting what was joined.
use cbank_system.Prelude.{ℕ, ◌≡◌, ◌≢◌, refl, ap, true, false, not, [], ◌∷◌, ◌++◌, some, arith}
use cbank_system.Text.{
  Bytes, Lacks, starts_with, strstr, strchr, strcspn_cut, drop_while, take_while, strtok, tokens,
  is_char,
}
use cbank_system.Text.Tokens.{tokens_step}

-- The byte that is looked for stands behind a front without it.
pub strchr-append : (b : ℕ) (l r : Bytes) → Lacks b l → strchr b (l ++ b ∷ r) ≡ some (l, r)
unfolding strchr
strchr-append b [] r h = ground arith
strchr-append b (c ∷ l) r (hc, h) = ground (arith, strchr-append b l r h)

pub strcspn_cut-append : (b : ℕ) (l r : Bytes) → Lacks b l → strcspn_cut b (l ++ b ∷ r) ≡ l
unfolding strcspn_cut
strcspn_cut-append b [] r h = ground arith
strcspn_cut-append b (c ∷ l) r (hc, h) = ground (arith, strcspn_cut-append b l r h)

pub strcspn_cut-Lacks : (b : ℕ) (s : Bytes) → Lacks b s → strcspn_cut b s ≡ s
unfolding strcspn_cut
strcspn_cut-Lacks b [] h = refl
strcspn_cut-Lacks b (c ∷ s) (hc, h) = ground (arith, strcspn_cut-Lacks b s h)

pub starts_with-append : (n s : Bytes) → starts_with n (n ++ s) ≡ true
unfolding starts_with
starts_with-append [] s = refl
starts_with-append (c ∷ n) s = ground (arith, starts_with-append n s)

pub take_while-Lacks :
    (b : ℕ) (t r : Bytes) → Lacks b t → take_while (λ c. not (is_char b c)) (t ++ b ∷ r) ≡ t
unfolding take_while
take_while-Lacks b [] r h = ground arith
take_while-Lacks b (c ∷ t) r (hc, h) = ground (arith, take_while-Lacks b t r h)

pub take_while-Lacks_end :
    (b : ℕ) (t : Bytes) → Lacks b t → take_while (λ c. not (is_char b c)) t ≡ t
unfolding take_while
take_while-Lacks_end b [] h = refl
take_while-Lacks_end b (c ∷ t) (hc, h) = ground (arith, take_while-Lacks_end b t h)

drop_while-Lacks :
    (b : ℕ) (t r : Bytes) → Lacks b t → drop_while (λ c. not (is_char b c)) (t ++ b ∷ r) ≡ b ∷ r
unfolding drop_while
drop_while-Lacks b [] r h = ground arith
drop_while-Lacks b (c ∷ t) r (hc, h) = ground (arith, drop_while-Lacks b t r h)

drop_while-Lacks_end : (b : ℕ) (t : Bytes) → Lacks b t → drop_while (λ c. not (is_char b c)) t ≡ []
unfolding drop_while
drop_while-Lacks_end b [] h = refl
drop_while-Lacks_end b (c ∷ t) (hc, h) = ground (arith, drop_while-Lacks_end b t h)

-- One call takes a token off the front, and its delimiter.
pub strtok-append :
    (b : ℕ) (t r : Bytes) → t ≢ [] → Lacks b t → strtok (is_char b) (t ++ b ∷ r) ≡ some (t, r)
unfolding strtok
strtok-append b [] r h k = absurd (h refl)
strtok-append b (c ∷ t) r h (hc, k) =
    unfold drop_while in
    ground (arith, take_while-Lacks b (c ∷ t) r (hc, k), drop_while-Lacks b (c ∷ t) r (hc, k))

pub strtok-last : (b : ℕ) (t : Bytes) → t ≢ [] → Lacks b t → strtok (is_char b) t ≡ some (t, [])
unfolding strtok
strtok-last b [] h k = absurd (h refl)
strtok-last b (c ∷ t) h (hc, k) =
    unfold drop_while in
    ground (arith, take_while-Lacks_end b (c ∷ t) (hc, k), drop_while-Lacks_end b (c ∷ t) (hc, k))

pub tokens-append :
    (b : ℕ) (t r : Bytes)
    → t ≢ []
    → Lacks b t
    → tokens (is_char b) (t ++ b ∷ r) ≡ t ∷ tokens (is_char b) r
tokens-append b t r h k = rw (tokens_step (is_char b) (t ++ b ∷ r), strtok-append b t r h k)

pub tokens-last : (b : ℕ) (t : Bytes) → t ≢ [] → Lacks b t → tokens (is_char b) t ≡ t ∷ []
unfolding strtok
tokens-last b t h k =
    rw (tokens_step (is_char b) t, strtok-last b t h k)
      (ap (λ r. t ∷ r) (tokens_step (is_char b) []))

-- What is looked for begins with a byte that the front lacks.
pub strstr-behind :
    (b : ℕ) (needle l r : Bytes) → Lacks b l → strstr (l ++ r) (b ∷ needle) ≡ strstr r (b ∷ needle)
unfolding strstr starts_with
strstr-behind b needle [] r h = refl
strstr-behind b needle (c ∷ l) r (hc, h) = ground (arith, strstr-behind b needle l r h)

-- One position of a search that does not end there.
pub strstr_step :
    (needle : Bytes) (c : ℕ) (s : Bytes)
    → starts_with needle (c ∷ s) ≡ false
    → strstr (c ∷ s) needle ≡ strstr s needle
unfolding strstr
strstr_step needle c s e = rw e

pub strstr_here :
    (needle : Bytes) (c : ℕ) (s : Bytes)
    → starts_with needle (c ∷ s) ≡ true
    → strstr (c ∷ s) needle ≡ some (c ∷ s)
unfolding strstr
strstr_here needle c s e = rw e
