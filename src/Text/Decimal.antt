-- ===== src/Text/Decimal.antt =====
-- `%d` and `%ld` of printf, and `atoi` and `atol`, without their overflow.
use cbank_system.Prelude.{
  ℕ, zero, suc, ◌+◌, ◌-◌, ◌*◌, ◌/◌, ◌%◌, ◌≤◌, length, ◌<◌, ◌≡◌, refl, ◌∙◌, inl, inr, Bool-cases,
  Bool, true, false, ◌&&◌, ◌||◌, [], ◌∷◌, ◌++◌, arith, ltb, leb, ◌==◌, if◌then◌else◌, All,
}
use cbank_system.Prelude.Int.{ℤ, pos, negsuc, neg}
use cbank_system.Text.Compare.{Bytes}

digits_loop : ℕ → ℕ → Bytes → Bytes
digits_loop zero n out = out
digits_loop (suc fuel) n out = elim (ltb n 10) [
  | true ↦ (b'0' + n) ∷ out
  | false ↦ digits_loop fuel (n / 10) ((b'0' + n % 10) ∷ out)
]

-- A number has fewer digits than its successor's value.
unfoldable pub print_nat : ℕ → Bytes
unfolding digits_loop
print_nat n = digits_loop (suc n) n []

unfoldable pub print_int : ℤ → Bytes
unfolding print_nat
print_int (pos n) = print_nat n
print_int (negsuc n) = b'-' ∷ print_nat (suc n)

unfoldable pub is_digit : ℕ → Bool
is_digit c = leb b'0' c && leb c b'9'

abbrev pub is_space : ℕ → Bool
is_space c = c == b' ' || (leb 9 c && leb c 13)

-- The digits at the front, behind `acc`.
unfoldable pub scan_nat : ℕ → Bytes → ℕ
unfolding is_digit
scan_nat acc [] = acc
scan_nat acc (c ∷ s) = if is_digit c then scan_nat (acc * 10 + (c - b'0')) s else acc

scan_sign : Bytes → ℤ
unfolding scan_nat
scan_sign [] = pos 0
scan_sign (c ∷ s) =
    if c == b'-'
    then neg (scan_nat 0 s)
    else if c == b'+'
    then pos (scan_nat 0 s)
    else pos (scan_nat 0 (c ∷ s))

-- White space is skipped, and a sign may stand in front of the digits.
unfoldable pub atol : Bytes → ℤ
unfolding scan_sign
atol [] = pos 0
atol (c ∷ s) = if is_space c then atol s else scan_sign (c ∷ s)

scan_nat-digits_loop :
    (fuel n : ℕ) (out : Bytes) → n < fuel → scan_nat 0 (digits_loop fuel n out) ≡ scan_nat n out
unfolding digits_loop scan_nat
scan_nat-digits_loop zero n out h = absurd (omega arith)
scan_nat-digits_loop (suc fuel) n out h =
    ground (arith, scan_nat-digits_loop fuel (n / 10) ((b'0' + n % 10) ∷ out))

digits_loop_head :
    (fuel n : ℕ) (out : Bytes)
    → n < fuel
    → (d : ℕ) × (s : Bytes) × (digits_loop fuel n out ≡ d ∷ s) × (is_digit d ≡ true)
unfolding digits_loop is_digit
digits_loop_head zero n out h = absurd (omega arith)
digits_loop_head (suc fuel) n out h = elim (Bool-cases (ltb n 10)) [
  | inl e ↦ (b'0' + n, out, rw (e, digits_loop), ground arith)
  | inr e ↦
      rw (e, digits_loop) (digits_loop_head fuel (n / 10) ((b'0' + n % 10) ∷ out) (ground arith))
]

digits_loop-append :
    (fuel n : ℕ) (out rest : Bytes)
    → digits_loop fuel n out ++ rest ≡ digits_loop fuel n (out ++ rest)
unfolding digits_loop
digits_loop-append zero n out rest = refl
digits_loop-append (suc fuel) n out rest =
    ground (arith, digits_loop-append fuel (n / 10) ((b'0' + n % 10) ∷ out) rest)

scan_nat_stop : (acc c : ℕ) (s : Bytes) → is_digit c ≡ false → scan_nat acc (c ∷ s) ≡ acc
unfolding scan_nat
scan_nat_stop acc c s e = rw e

atol_of_digit :
    (d : ℕ) (s : Bytes) (n : ℕ) → is_digit d ≡ true → scan_nat 0 (d ∷ s) ≡ n → atol (d ∷ s) ≡ pos n
unfolding atol
atol_of_digit d s n digit e = ground arith

digits_loop-IsDigit :
    (fuel n : ℕ) (out : Bytes)
    → All (λ c. is_digit c ≡ true) out
    → All (λ c. is_digit c ≡ true) (digits_loop fuel n out)
unfolding digits_loop is_digit
digits_loop-IsDigit zero n out h = h
digits_loop-IsDigit (suc fuel) n out h =
    ground (arith, digits_loop-IsDigit fuel (n / 10) ((b'0' + n % 10) ∷ out))

-- A bound on the numbers of `k` digits.
unfoldable pub ten_pow : ℕ → ℕ
ten_pow zero = 1
ten_pow (suc k) = 10 * ten_pow k

length-digits_loop :
    (fuel n k : ℕ) (out : Bytes)
    → n < ten_pow (suc k)
    → length (digits_loop fuel n out) ≤ suc k + length out
unfolding digits_loop ten_pow
length-digits_loop zero n k out h = omega arith
length-digits_loop (suc fuel) n zero out h = ground arith
length-digits_loop (suc fuel) n (suc k) out h =
    ground (arith, length-digits_loop fuel (n / 10) k ((b'0' + n % 10) ∷ out))

pub length-print_nat : (n k : ℕ) → n < ten_pow (suc k) → length (print_nat n) ≤ suc k
unfolding print_nat
length-print_nat n k h = omega (arith, length-digits_loop (suc n) n k [] h)

-- A printed number is digits alone.
pub print_nat-IsDigit : (n : ℕ) → All (λ c. is_digit c ≡ true) (print_nat n)
unfolding print_nat
print_nat-IsDigit n = digits_loop-IsDigit (suc n) n [] tt

pub atol-print_nat_end : (n : ℕ) → atol (print_nat n) ≡ pos n
unfolding print_nat scan_nat
atol-print_nat_end n =
    let (d, s, at, digit) = digits_loop_head (suc n) n [] (omega arith) in
    let value = scan_nat-digits_loop (suc n) n [] (omega arith) in
    rw at (atol_of_digit d s n digit (rw at at value))

-- `atol` reads the number that `%ld` printed, up to the first character that is no digit.
pub atol-print_nat :
    (n c : ℕ) (rest : Bytes) → is_digit c ≡ false → atol (print_nat n ++ c ∷ rest) ≡ pos n
unfolding print_nat
atol-print_nat n c rest e =
    let (d, s, at, digit) = digits_loop_head (suc n) n (c ∷ rest) (omega arith) in
    let value =
      scan_nat-digits_loop (suc n) n (c ∷ rest) (omega arith) ∙ scan_nat_stop n c rest e in
    rw (digits_loop-append (suc n) n [] (c ∷ rest), at) (atol_of_digit d s n digit (rw at at value))
