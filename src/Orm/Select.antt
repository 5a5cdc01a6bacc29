-- ===== src/Orm/Select.antt =====
-- orm/select_query.c: a query walks the lines of a table and keeps the columns that are asked for.
pub mod Scan
pub mod Bounds
use cbank_system.Prelude.{
  ℕ, ◌+◌, Bool, true, false, not, ◌&&◌, List, [], ◌∷◌, ◌++◌, map, Option, none, some, length, take,
  leb, ltb, ◌==◌, if◌then◌else◌,
}
use cbank_system.Prelude.Ret.{Ret, ok, null, fault, ◌>>=◌}
use cbank_system.Text.{Bytes, codes, bytes_eq, strchr, strcspn_cut, tokens, is_char, fgets_lines}
use cbank_system.Orm.Files.{Files}
use cbank_system.Orm.Filtering.{Doubles, WhereCondition, compare}

pub record SelectQuery : Type 0 where
  pub table : Bytes
  pub columns : List Bytes
  pub conditions : List WhereCondition

abbrev pub condition_count : ℕ
condition_count = 10

abbrev pub rs_max_cols : ℕ
rs_max_cols = 20

abbrev pub rs_max_rows : ℕ
rs_max_rows = 100

abbrev pub db_user_section : Bytes
db_user_section = codes "./stores/user_db"

abbrev pub db_account_section : Bytes
db_account_section = codes "./stores/account_db"

unfoldable pub new_select_query : SelectQuery
new_select_query = record { table = []; columns = []; conditions = [] }

-- The names between the commas, of which the buffer keeps 1023 bytes. The array has room for 20, and
-- a second call would leave null pointers in front of its names.
unfoldable pub qselect : SelectQuery → Bytes → Ret SelectQuery
qselect q columns =
    let names = tokens (is_char b',') (take 1023 columns) in
    if length q.columns == 0 && leb (length names) rs_max_cols
    then ok (record q { columns = names })
    else fault

unfoldable pub qfrom : SelectQuery → Bytes → SelectQuery
qfrom q table = record q { table = table }

-- A condition past the tenth is dropped.
unfoldable pub qwhere : SelectQuery → Bytes → Bytes → Bytes → SelectQuery
qwhere q column operator value = if leb condition_count (length q.conditions) then q else record q {
  conditions = q.conditions ++ record { column = column; operator = operator; value = value } ∷ [];
}

unfoldable pub qselect_all_from : SelectQuery → Bytes → Ret SelectQuery
qselect_all_from q table = do
  q' ←
      (if bytes_eq table db_user_section
        then qselect (qfrom q table)
            (codes "id,name,cpf,email,password,created_at,updated_at,is_active")
        else ok (qfrom q table))
  if bytes_eq table db_account_section
      then qselect q' (codes "id,balance,user_id_fk,created_at,updated_at")
      else ok q'
