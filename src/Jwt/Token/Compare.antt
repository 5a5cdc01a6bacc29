-- ===== src/Jwt/Token/Compare.antt =====
-- `constant_time_compare` decides equality.
use Prim.Native.Nat.{bit_xor}
use cbank_system.Prelude.{ℕ, zero, suc, ◌+◌, ◌≡◌, ◌↔◌, refl, true, [], ◌∷◌, length, get_or, arith}
use cbank_system.Prelude.Bits.{bit_or-eq_zero, bit_xor-eq_zero, bit_xor_self}
use cbank_system.Text.{Bytes}
use cbank_system.Jwt.Token.{compare_loop, constant_time_compare, is_genuine}

-- Two strings agree on `left` places from `i` on.
abbrev pub Agree : Bytes → Bytes → ℕ → ℕ → Type 0
Agree r l zero i = Unit
Agree r l (suc left) i = (get_or r i 0 ≡ get_or l i 0) × Agree r l left (i + 1)

compare_loop_sound :
    (r l : Bytes) (left i result : ℕ)
    → compare_loop r l left i result ≡ 0
    → (result ≡ 0) × Agree r l left i
unfolding compare_loop
compare_loop_sound r l zero i result e = (e, tt)
compare_loop_sound r l (suc left) i result e =
    let (seen, later) = compare_loop_sound r l left (i + 1) _ e in
    let (before, here) = bit_or-eq_zero result (bit_xor (get_or r i 0) (get_or l i 0)) seen in
    (before, (bit_xor-eq_zero _ _ here, later))

Agree-behind :
    (a b : ℕ) (r l : Bytes) (left i : ℕ) → Agree (a ∷ r) (b ∷ l) left (suc i) → Agree r l left i
Agree-behind a b r l zero i h = tt
Agree-behind a b r l (suc left) i (h, k) = (h, Agree-behind a b r l left (i + 1) (rw (next i) at k))
  where
    next : (j : ℕ) → suc j + 1 ≡ suc (j + 1)
    next j = omega arith

eq_of_Agree : (r l : Bytes) → length r ≡ length l → Agree r l (length l) 0 → r ≡ l
eq_of_Agree [] [] e h = refl
eq_of_Agree [] (b ∷ l) e h = absurd (omega arith)
eq_of_Agree (a ∷ r) [] e h = absurd (omega arith)
eq_of_Agree (a ∷ r) (b ∷ l) e (h, k) =
    let tails = eq_of_Agree r l (omega arith) (Agree-behind a b r l (length l) 0 k) in cc

pub constant_time_compare_sound :
    (r l : Bytes) → length r ≡ length l → constant_time_compare r l (length l) ≡ true → r ≡ l
unfolding constant_time_compare
constant_time_compare_sound r l e h =
    let (_, agree) = compare_loop_sound r l (length l) 0 0 (ground arith) in eq_of_Agree r l e agree

compare_loop_self : (r : Bytes) (left i : ℕ) → compare_loop r r left i 0 ≡ 0
unfolding compare_loop
compare_loop_self r zero i = refl
compare_loop_self r (suc left) i =
    rw (bit_xor_self (get_or r i 0)) (compare_loop_self r left (i + 1))

pub constant_time_compare_complete : (r : Bytes) → constant_time_compare r r (length r) ≡ true
unfolding constant_time_compare
constant_time_compare_complete r = rw (compare_loop_self r (length r) 0)

-- On strings of one length the comparison answers true exactly for equal strings.
pub constant_time_compare_iff :
    (r l : Bytes) → length r ≡ length l → (constant_time_compare r l (length l) ≡ true) ↔ (r ≡ l)
constant_time_compare_iff r l e =
    (constant_time_compare_sound r l e, λ same. rw same (constant_time_compare_complete l))

pub is_genuine_iff : (mac signature : Bytes) → (is_genuine mac signature ≡ true) ↔ (mac ≡ signature)
unfolding is_genuine
is_genuine_iff mac signature = (
  λ e. constant_time_compare_sound mac signature (ground arith) (ground arith),
  λ same. rw same (ground (arith, constant_time_compare_complete signature)),
)
