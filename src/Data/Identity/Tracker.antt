-- ===== src/Data/Identity/Tracker.antt =====
-- The identity tracker as a list of stores with their numbers, and its lines.
use cbank_system.Prelude.{
  ℕ, ◌≤◌, ◌<◌, ◌≡◌, ◌≢◌, refl, ap, sym, Bool, true, false, List, [], ◌∷◌, ◌++◌, length,
  length-append, All, arith, All-append, append-nil,
}
use cbank_system.Prelude.Int.{pos}
use cbank_system.Text.{
  Bytes, Lacks, codes, atol, print_nat, is_digit, print_nat-IsDigit, length-print_nat, ten_pow,
  atol-print_nat, atol-print_nat_end,
}
use cbank_system.Orm.Insert.{row_text}
use cbank_system.Orm.Table.{Row}
use cbank_system.Data.Fields.{int_max}
use cbank_system.Data.Fields.Search.{IsPlain}

-- A store with its number. The line of a new store has no ';' at its end.
pub record Identity : Type 0 where
  pub name : Bytes
  pub cur_id : ℕ
  pub closed : Bool

abbrev pub line_end : Bool → Bytes
line_end true = b';' ∷ []
line_end false = []

abbrev pub identity_row : Identity → Row
identity_row e =
    (codes "store", e.name) ∷ (codes "cur_id", print_nat e.cur_id ++ line_end e.closed) ∷ []

unfoldable pub tracker_text : List Identity → Bytes
tracker_text [] = []
tracker_text (e ∷ entries) = row_text (identity_row e) ++ 10 ∷ tracker_text entries

-- A name of at most 49 bytes without separators, and a number that is not the last `int`.
abbrev pub IsIdentity : Identity → Type 0
IsIdentity e =
    (e.name ≢ [])
    × Lacks b'=' e.name
    × Lacks b';' e.name
    × Lacks 10 e.name
    × (length e.name ≤ 49)
    × (e.cur_id < int_max)

pub digits-Lacks :
    (b : ℕ) (s : Bytes) → is_digit b ≡ false → All (λ c. is_digit c ≡ true) s → Lacks b s
digits-Lacks b [] h k = tt
digits-Lacks b (c ∷ s) h (kc, k) = (λ e. let same = ap is_digit e in cc, digits-Lacks b s h k)

pub digits-line_end :
    (b n : ℕ) (closed : Bool)
    → is_digit b ≡ false
    → b ≢ b';'
    → Lacks b (print_nat n ++ line_end closed)
digits-line_end b n true h k =
    All-append (λ c. c ≢ b) (print_nat n) (b';' ∷ [])
      (digits-Lacks b (print_nat n) h (print_nat-IsDigit n)) (λ e. k (sym e), tt)
digits-line_end b n false h k =
    All-append (λ c. c ≢ b) (print_nat n) [] (digits-Lacks b (print_nat n) h (print_nat-IsDigit n))
      tt

pub atol-line_end : (n : ℕ) (closed : Bool) → atol (print_nat n ++ line_end closed) ≡ pos n
atol-line_end n true = atol-print_nat n b';' [] (unfold is_digit in refl)
atol-line_end n false = rw (append-nil (print_nat n)) (atol-print_nat_end n)

pub identity_row-IsPlain : (e : Identity) → IsIdentity e → All IsPlain (identity_row e)
unfolding is_digit
identity_row-IsPlain e (filled, equals, semi, nl, short, small) = (
  (omega arith, equals),
  ((omega arith, digits-line_end b'=' e.cur_id e.closed refl (omega arith)), tt),
)

pub identity_row-Lacks : (e : Identity) → IsIdentity e → Lacks 10 (row_text (identity_row e))
unfolding row_text is_digit
identity_row-Lacks e (filled, equals, semi, nl, short, small) = (
  omega arith,
  (
    omega arith,
    (
      omega arith,
      (
        omega arith,
        (
          omega arith,
          (
            omega arith,
            All-append (λ c. c ≢ 10) e.name
                (codes ";cur_id=" ++ (print_nat e.cur_id ++ line_end e.closed)) nl
                (
                  omega arith,
                  (
                    omega arith,
                    (
                      omega arith,
                      (
                        omega arith,
                        (
                          omega arith,
                          (
                            omega arith,
                            (
                              omega arith,
                              (
                                omega arith,
                                digits-line_end 10 e.cur_id e.closed refl (omega arith),
                              ),
                            ),
                          ),
                        ),
                      ),
                    ),
                  ),
                ),
          ),
        ),
      ),
    ),
  ),
)

pub length-line_end : (closed : Bool) → length (line_end closed) ≤ 1
length-line_end true = omega arith
length-line_end false = omega arith

-- A line fits the buffer.
pub length-identity_row : (e : Identity) → IsIdentity e → length (row_text (identity_row e)) < 255
unfolding row_text
length-identity_row e (filled, equals, semi, nl, short, small) =
    rw (length-append e.name _, length-append (print_nat e.cur_id) (line_end e.closed))
      (omega (
        arith,
        length-line_end e.closed,
        length-print_nat e.cur_id 9 (unfold ten_pow in omega arith),
      ))
