-- ===== src/Prelude/Bits.antt =====
-- Masks and joins of a few bits as arithmetic, from the digit recursion and from finite tables.
use Prim.Native.Nat.{
  ℕ, zero, suc, ◌+◌, ◌-◌, ◌*◌, ◌/◌, ◌%◌, ◌≤◌, ◌<◌, min, max, bit_and, bit_or, bit_xor, digits,
  differ, bit_and-bitwise, bit_or-bitwise, bit_xor-bitwise,
}
use mathlib.Core.Path.{◌≡◌, refl, ap, sym, ◌∙◌}
use mathlib.Core.Logic.{ite}
use mathlib.Core.Bool.{Bool, true, false}
use native.Mathlib.Decide.{ℕ_discrete}
use native.Mathlib.Omega.{arith}

-- Two functions of a byte agree where evaluation says so.
module _ (f g : ℕ → ℕ) where
  unfoldable pub agree_below : ℕ → Bool
  unfolding ℕ_discrete
  agree_below zero = true
  agree_below (suc n) = ite (ℕ_discrete (f n) (g n)) (agree_below n) false

  pub eq_of_agree : (n : ℕ) → agree_below n ≡ true → (i : ℕ) → i < n → f i ≡ g i
  unfolding agree_below
  eq_of_agree zero e i h = absurd (omega arith)
  eq_of_agree (suc n) e i h = ground (arith, eq_of_agree n (ground arith) i)

-- The same for functions of two numbers.
module _ (f g : ℕ → ℕ → ℕ) (m : ℕ) where
  unfoldable pub agree_square : ℕ → Bool
  unfolding agree_below
  agree_square zero = true
  agree_square (suc n) = elim (agree_below (f n) (g n) m) [ true ↦ agree_square n | false ↦ false ]

  pub eq_of_agree_square :
      (n : ℕ) → agree_square n ≡ true → (i j : ℕ) → i < n → j < m → f i j ≡ g i j
  unfolding agree_square
  eq_of_agree_square zero e i j h k = absurd (omega arith)
  eq_of_agree_square (suc n) e i j h k =
      ground
        (arith, eq_of_agree (f n) (g n) m (ground arith) j, eq_of_agree_square n (ground arith) i j)

-- The native operations stand for a recursion on binary digits with the first number as its fuel.
-- More fuel than that changes nothing.
module _ (left : ℕ → ℕ) (join : ℕ → ℕ → ℕ) where
  one_more : (fuel x y : ℕ) → x ≤ fuel → digits left join (suc fuel) x y ≡ digits left join fuel x y
  one_more zero zero y enough = refl
  one_more zero (suc x) y enough = absurd (omega arith)
  one_more (suc fuel) zero y enough = refl
  one_more (suc fuel) (suc x) y enough =
      omega (arith, one_more fuel (suc x / 2) (y / 2) (omega arith))

  many_more :
      (k x half y : ℕ) → half ≤ x → digits left join (k + x) half y ≡ digits left join x half y
  many_more zero x half y enough = ap (λ n. digits left join n half y) (omega arith)
  many_more (suc k) x half y enough =
      ap (λ n. digits left join n half y) {y = suc (k + x)} (omega arith)
      ∙ one_more (k + x) half y (omega arith)
      ∙ many_more k x half y enough

  own_fuel : (fuel x y : ℕ) → x ≤ fuel → digits left join fuel x y ≡ digits left join x x y
  own_fuel fuel x y enough =
      ap (λ n. digits left join n x y) (omega arith) ∙ many_more (fuel - x) x x y (omega arith)

  -- The lowest digit, and the operation on the halves.
  lowest_digit :
      (x y : ℕ)
      → digits left join (suc x) (suc x) y
        ≡ digits left join (suc x / 2) (suc x / 2) (y / 2) * 2 + join (suc x % 2) (y % 2)
  lowest_digit x y = omega (arith, own_fuel x (suc x / 2) (y / 2) (omega arith))

zero-bit_and : (y : ℕ) → bit_and 0 y ≡ 0
zero-bit_and y = bit_and-bitwise 0 y

bit_and_step : (x y : ℕ) → bit_and x y ≡ bit_and (x / 2) (y / 2) * 2 + min (x % 2) (y % 2)
bit_and_step zero y = omega (arith, zero-bit_and y, zero-bit_and (y / 2))
bit_and_step (suc x) y =
    rw (bit_and-bitwise (suc x) y, bit_and-bitwise (suc x / 2) (y / 2))
      (lowest_digit (λ c. zero) min x y)

bit_and-zero : (bound x : ℕ) → x ≤ bound → bit_and x 0 ≡ 0
bit_and-zero bound zero h = refl
bit_and-zero zero (suc x) h = absurd (omega arith)
bit_and-zero (suc bound) (suc x) h =
    omega (arith, bit_and_step (suc x) 0, bit_and-zero bound (suc x / 2) (omega arith))

mask_one : (a : ℕ) → bit_and a 1 ≡ a % 2
mask_one a = omega (arith, bit_and_step a 1, bit_and-zero (a / 2) (a / 2) (omega arith))

mask_two : (a : ℕ) → bit_and a 3 ≡ a % 4
mask_two a = omega (arith, bit_and_step a 3, mask_one (a / 2))

mask_three : (a : ℕ) → bit_and a 7 ≡ a % 8
mask_three a = omega (arith, bit_and_step a 7, mask_two (a / 2))

mask_four : (a : ℕ) → bit_and a 15 ≡ a % 16
mask_four a = omega (arith, bit_and_step a 15, mask_three (a / 2))

mask_five : (a : ℕ) → bit_and a 31 ≡ a % 32
mask_five a = omega (arith, bit_and_step a 31, mask_four (a / 2))

-- The lowest six bits are the remainder modulo 64.
pub mask_six : (a : ℕ) → bit_and a 63 ≡ a % 64
mask_six a = omega (arith, bit_and_step a 63, mask_five (a / 2))

zero-bit_or : (b : ℕ) → bit_or 0 b ≡ b
zero-bit_or b = bit_or-bitwise 0 b

bit_or_step : (a b : ℕ) → bit_or a b ≡ bit_or (a / 2) (b / 2) * 2 + max (a % 2) (b % 2)
bit_or_step zero b = omega (arith, zero-bit_or b, zero-bit_or (b / 2))
bit_or_step (suc a) b =
    rw (bit_or-bitwise (suc a) b, bit_or-bitwise (suc a / 2) (b / 2))
      (lowest_digit (λ c. c) max a b)

or_eq_zero_fuel : (n a b : ℕ) → a ≤ n → bit_or a b ≡ 0 → (a ≡ 0) × (b ≡ 0)
or_eq_zero_fuel n zero b h e = (refl, sym (zero-bit_or b) ∙ e)
or_eq_zero_fuel zero (suc a) b h e = absurd (omega arith)
or_eq_zero_fuel (suc n) (suc a) b h e =
    let step = bit_or_step (suc a) b in
    let (p, q) = or_eq_zero_fuel n (suc a / 2) (b / 2) (omega arith) (omega arith) in omega arith

-- A disjunction of bits is zero only where both sides are.
pub bit_or-eq_zero : (a b : ℕ) → bit_or a b ≡ 0 → (a ≡ 0) × (b ≡ 0)
bit_or-eq_zero a b = or_eq_zero_fuel a a b (omega arith)

zero-bit_xor : (b : ℕ) → bit_xor 0 b ≡ b
zero-bit_xor b = bit_xor-bitwise 0 b

differ-zero : (b : ℕ) → b < 2 → differ 0 b ≡ b
differ-zero b h = ground arith

differ_eq_zero : (a b : ℕ) → a < 2 → b < 2 → differ a b ≡ 0 → a ≡ b
differ_eq_zero a b h k e = ground arith

differ_self : (a : ℕ) → a < 2 → differ a a ≡ 0
differ_self a h = elim (ℕ_discrete a 0) [
  | yes e ↦ rw e
  | no e ↦ let one : a ≡ 1 = omega arith in rw one
]

bit_xor_step : (a b : ℕ) → bit_xor a b ≡ bit_xor (a / 2) (b / 2) * 2 + differ (a % 2) (b % 2)
bit_xor_step zero b =
    omega (arith, zero-bit_xor b, zero-bit_xor (b / 2), differ-zero (b % 2) (omega arith))
bit_xor_step (suc a) b =
    rw (bit_xor-bitwise (suc a) b, bit_xor-bitwise (suc a / 2) (b / 2))
      (lowest_digit (λ c. c) differ a b)

xor_eq_zero_fuel : (n a b : ℕ) → a ≤ n → bit_xor a b ≡ 0 → a ≡ b
xor_eq_zero_fuel n zero b h e = sym (sym (zero-bit_xor b) ∙ e)
xor_eq_zero_fuel zero (suc a) b h e = absurd (omega arith)
xor_eq_zero_fuel (suc n) (suc a) b h e =
    let step = bit_xor_step (suc a) b in
    let halves = xor_eq_zero_fuel n (suc a / 2) (b / 2) (omega arith) (omega arith) in
    let lowest = differ_eq_zero (suc a % 2) (b % 2) (omega arith) (omega arith) (omega arith) in
    omega arith

-- An exclusive disjunction of bits is zero exactly where the sides are equal.
pub bit_xor-eq_zero : (a b : ℕ) → bit_xor a b ≡ 0 → a ≡ b
bit_xor-eq_zero a b = xor_eq_zero_fuel a a b (omega arith)

xor_self_fuel : (n a : ℕ) → a ≤ n → bit_xor a a ≡ 0
xor_self_fuel n zero h = zero-bit_xor 0
xor_self_fuel zero (suc a) h = absurd (omega arith)
xor_self_fuel (suc n) (suc a) h = omega (
  arith,
  bit_xor_step (suc a) (suc a),
  xor_self_fuel n (suc a / 2) (omega arith),
  differ_self (suc a % 2) (omega arith),
)

pub bit_xor_self : (a : ℕ) → bit_xor a a ≡ 0
bit_xor_self a = xor_self_fuel a a (omega arith)
