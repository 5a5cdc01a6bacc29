-- ===== src/Orm/Tests.antt =====
-- The theorems on tables at concrete tables.
use cbank_system.Prelude.{ℕ, ◌+◌, ◌≡◌, ◌↔◌, refl, true, [], ◌∷◌, none, length, arith, ltb, leb}
use cbank_system.Prelude.Ret.{ok}
use cbank_system.Text.{Bytes, codes, atol, bytes_eq}
use cbank_system.Prelude.Int.{pos, negsuc}
use cbank_system.Orm.Files.{Files, put_file}
use cbank_system.Orm.Insert.{row_text, insert_query_executor}
use cbank_system.Orm.Filtering.{Doubles}
use cbank_system.Orm.Select.{SelectQuery}
use cbank_system.Orm.Select.Bounds.{length-line_text}
use cbank_system.Orm.Select.Scan.{line_pairs, pairs_pass, select_executor, line_text, line_len}
use cbank_system.Orm.Table.{
  Row, IsRow, join, line_of, values_in, test_named, meets, count_name, asked_of, table_text,
  select_rows, result_of,
}
use cbank_system.Orm.Table.Refine.{Fits, select_executor-select_rows}
use cbank_system.Orm.Table.Append.{
  HasOnly, equals, insert_query_executor-table_text, select_executor-insert_query_executor,
  pairs_pass-equals_iff, line_pairs-separator,
}

-- Whole numbers in place of doubles.
abbrev whole : Bytes → ℕ
whole s = elim (atol s) [ pos n ↦ n | negsuc n ↦ 0 ]

abbrev pub naturals : Doubles
naturals = record {
  Double = ℕ;
  atof = whole;
  gt = λ a b. ltb b a;
  lt = ltb;
  ge = λ a b. leb b a;
  le = leb;
}

abbrev ana : Row
ana = (codes "id", codes "1") ∷ (codes "name", codes "Ana") ∷ []

abbrev rui : Row
rui = (codes "id", codes "2") ∷ (codes "name", codes "Rui") ∷ []

abbrev users : Bytes
users = codes "users"

abbrev stored : Files
unfolding table_text line_of join row_text
stored = put_file (λ p. none) users (table_text (ana ∷ []))

abbrev names_of_rui : SelectQuery
names_of_rui = record {
  table = users;
  columns = codes "name" ∷ [];
  conditions = equals (codes "id") (codes "2") ∷ [];
}

length-line_text_example :
    length (codes "id=1;name=Ana") + 1
    ≡ line_len (codes "id" ∷ codes "name" ∷ []) (codes "1" ∷ codes "Ana" ∷ []) 2
unfolding line_text
length-line_text_example =
    length-line_text (codes "id" ∷ codes "name" ∷ []) (codes "1" ∷ codes "Ana" ∷ []) 1
      (codes "id=1;name=Ana") refl

insert_query_executor-table_text_example :
    insert_query_executor (record { table = users; insert_pair = rui }) stored
    ≡ (0, put_file stored users (table_text (ana ∷ rui ∷ [])))
unfolding bytes_eq table_text line_of join row_text
insert_query_executor-table_text_example =
    insert_query_executor-table_text users rui stored (ana ∷ []) (λ e. cc) refl

ana-IsRow : IsRow ana
unfolding row_text
ana-IsRow = (λ e. cc, omega arith, omega arith)

rui-IsRow : IsRow rui
unfolding row_text
rui-IsRow = (λ e. cc, omega arith, omega arith)

selected-Fits : Fits (select_rows naturals names_of_rui (ana ∷ rui ∷ []))
unfolding select_rows meets asked_of count_name values_in test_named bytes_eq
selected-Fits = omega arith

selected_before-Fits : Fits (select_rows naturals names_of_rui (ana ∷ []))
unfolding select_rows meets asked_of count_name values_in test_named bytes_eq
selected_before-Fits = omega arith

select_executor-insert_query_executor_example :
    select_executor naturals names_of_rui
      (insert_query_executor (record { table = users; insert_pair = rui }) stored).1
    ≡ ok (result_of (select_rows naturals names_of_rui (ana ∷ rui ∷ [])))
unfolding bytes_eq table_text line_of join row_text
select_executor-insert_query_executor_example =
    select_executor-insert_query_executor naturals names_of_rui rui stored (ana ∷ []) refl
      (ana-IsRow, tt) rui-IsRow selected-Fits

select_executor-select_rows_example :
    select_executor naturals names_of_rui stored
    ≡ ok (result_of (select_rows naturals names_of_rui (ana ∷ [])))
unfolding bytes_eq table_text line_of join row_text
select_executor-select_rows_example =
    select_executor-select_rows naturals names_of_rui stored (ana ∷ []) refl (ana-IsRow, tt)
      selected_before-Fits

pairs_pass-equals_iff_example :
    (pairs_pass naturals (equals (codes "id") (codes "2") ∷ []) rui ≡ true)
    ↔ HasOnly (codes "id") (codes "2") rui
pairs_pass-equals_iff_example = pairs_pass-equals_iff naturals (codes "id") (codes "2") rui

-- A name "x;id=9" becomes the column "id" with the value "9".
line_pairs-separator_example :
    line_pairs (row_text ((codes "name", codes "x;id=9") ∷ []))
    ≡ (codes "name", codes "x") ∷ (codes "id", codes "9") ∷ []
line_pairs-separator_example =
    line_pairs-separator (codes "name") (codes "x") (codes "id") (codes "9") [] (omega arith)
