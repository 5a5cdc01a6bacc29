-- ===== src/Orm/Filtering.antt =====
-- orm/filtering.c: one comparison of a where clause. Doubles and `atof` are parameters.
use cbank_system.Prelude.{Bool, false, not, if◌then◌else◌}
use cbank_system.Text.{Bytes, codes, bytes_eq}

-- The C library's doubles, as far as the comparisons use them.
pub record Doubles : Type 1 where
  pub Double : Type 0
  pub atof : Bytes → Double
  pub gt : Double → Double → Bool
  pub lt : Double → Double → Bool
  pub ge : Double → Double → Bool
  pub le : Double → Double → Bool

pub record WhereCondition : Type 0 where
  pub column : Bytes
  pub operator : Bytes
  pub value : Bytes

unfoldable pub compare : Doubles → Bytes → Bytes → Bytes → Bool
compare d left op right =
    if bytes_eq op (codes "=")
    then bytes_eq left right
    else if bytes_eq op (codes "!=")
    then not (bytes_eq left right)
    else if bytes_eq op (codes ">")
    then d.gt (d.atof left) (d.atof right)
    else if bytes_eq op (codes "<")
    then d.lt (d.atof left) (d.atof right)
    else if bytes_eq op (codes ">=")
    then d.ge (d.atof left) (d.atof right)
    else if bytes_eq op (codes "<=")
    then d.le (d.atof left) (d.atof right)
    else false
