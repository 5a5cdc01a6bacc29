-- ===== src/Orm/Select/Bounds.antt =====
-- The buffer of `get_line_from_resultset`.
use cbank_system.Prelude.{ℕ, zero, suc, ◌+◌, ◌≡◌, List, [], ◌∷◌, ◌++◌, length, length-append, arith}
use cbank_system.Prelude.Ret.{ok, >>=-eq-ok}
use cbank_system.Text.{Bytes}
use cbank_system.Orm.Select.Scan.{line_text, line_len}

-- The text of a row with at least one column and its terminating zero fill `line_len` bytes exactly:
-- `snprintf` cuts nothing, and the zero written one place further is the last of the bytes allocated.
pub length-line_text :
    (columns line : List Bytes) (cols : ℕ) (text : Bytes)
    → line_text columns line (suc cols) ≡ ok text
    → length text + 1 ≡ line_len columns line (suc cols)
unfolding line_text line_len
length-line_text [] line cols text e = cc
length-line_text (column ∷ columns) [] cols text e = cc
length-line_text (column ∷ columns) (value ∷ line) zero text e =
    ground (arith, length-append column (b'=' ∷ value))
length-line_text (column ∷ columns) (value ∷ line) (suc cols) text e =
    let (rest, inner, whole) = >>=-eq-ok (line_text columns line (suc cols)) _ e in
    ground (
      arith,
      length-line_text columns line cols rest inner,
      length-append column (b'=' ∷ (value ++ b';' ∷ rest)),
      length-append value (b';' ∷ rest),
    )
