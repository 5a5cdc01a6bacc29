-- ===== src/Orm/Table/Refine.antt =====
-- The executors implement the query on rows.
use cbank_system.Prelude.{
  suc, ◌+◌, ◌≤◌, ◌<◌, ◌≡◌, refl, ap, ◌∙◌, sym, List, [], ◌∷◌, ◌++◌, map, some, length,
  length-append, arith, All, append-nil, append_assoc, if◌then◌else◌, Bool-cases, inl, inr, ◌==◌,
}
use cbank_system.Prelude.Ret.{ok, ◌>>=◌}
use cbank_system.Text.{Bytes, fgets_lines, fgets_lines-append, fgets_lines-nil}
use cbank_system.Orm.Files.{Files}
use cbank_system.Orm.Insert.{row_text}
use cbank_system.Orm.Filtering.{Doubles}
use cbank_system.Orm.Select.{SelectQuery, rs_max_cols, rs_max_rows}
use cbank_system.Orm.Select.Scan.{
  ResultSet, make_result_set, pairs_pass, keep_columns, names, values, add_row, scan_lines,
  select_executor,
}
use cbank_system.Orm.Table.{
  Row, IsRow, table_text, select_rows, passed_rows, last_length, first_names, result_of,
}
use cbank_system.Orm.Table.Meaning.{table_text_step, passed_rows-select_rows}
use cbank_system.Orm.Table.Lines.{row_text-Lacks, scan_line-row_text}

-- What `add_row` does where the arrays have room.
put_row : ResultSet → Row → ResultSet
put_row rs row = record {
  rows_data = rs.rows_data ++ values row ∷ [];
  cols = length row;
  column_order = if length rs.rows_data == 0 then names row else rs.column_order;
}

put_rows : ResultSet → List Row → ResultSet
put_rows rs [] = rs
put_rows rs (row ∷ rows) = put_rows (put_row rs row) rows

add_row-put_row :
    (rs : ResultSet) (row : Row)
    → length row ≤ rs_max_cols
    → length rs.rows_data < rs_max_rows
    → add_row rs row ≡ ok (put_row rs row)
unfolding add_row put_row
add_row-put_row rs row h k = ground arith

length-put_row :
    (rs : ResultSet) (row : Row) → length (put_row rs row).rows_data ≡ suc (length rs.rows_data)
unfolding put_row
length-put_row rs row = omega (arith, length-append rs.rows_data (values row ∷ []))

-- A result whose rows and columns the arrays can hold.
abbrev pub Fits : List Row → Type 0
Fits rows = All (λ (row : Row). length row ≤ rs_max_cols) rows × (length rows ≤ rs_max_rows)

scan_step :
    (d : Doubles) (q : SelectQuery) (rs : ResultSet) (row : Row) (rest : List Bytes)
    → IsRow row
    → scan_lines d q rs ((row_text row ++ 10 ∷ []) ∷ rest) ≡ (
        (if pairs_pass d q.conditions row then add_row rs (keep_columns q.columns row) else ok rs)
        >>= λ rs'. scan_lines d q rs' rest)
unfolding scan_lines
scan_step d q rs row rest h = rw (scan_line-row_text d q rs row h)

scan_table :
    (d : Doubles) (q : SelectQuery) (rs : ResultSet) (rows : List Row)
    → All IsRow rows
    → All (λ (row : Row). length row ≤ rs_max_cols) (passed_rows d q rows)
    → length rs.rows_data + length (passed_rows d q rows) ≤ rs_max_rows
    → scan_lines d q rs (fgets_lines 1023 (table_text rows))
      ≡ ok (put_rows rs (passed_rows d q rows))
unfolding passed_rows put_rows
scan_table d q rs [] h narrow few =
    unfold table_text in rw (fgets_lines-nil 1023) (unfold scan_lines in refl)
scan_table d q rs (row ∷ rows) (is_row, h) narrow few =
    ap (λ s. scan_lines d q rs (fgets_lines 1023 s)) (table_text_step row rows)
    ∙ ap (scan_lines d q rs) (
        fgets_lines-append 1023 (row_text row) (table_text rows) (row_text-Lacks row is_row.1)
          is_row.2)
    ∙ scan_step d q rs row _ is_row
    ∙ elim (Bool-cases (pairs_pass d q.conditions row)) [
      | inl passes ↦
          let kept = keep_columns q.columns row in
          let (narrow_row, narrow_rest) = rw passes at narrow in
          let few' = rw passes at few in
          rw (passes, add_row-put_row rs kept narrow_row (omega arith))
            (scan_table d q (put_row rs kept) rows h narrow_rest
              (omega (arith, length-put_row rs kept)))
      | inr fails ↦ rw fails (scan_table d q rs rows h (rw fails at narrow) (rw fails at few))
    ]

-- The fields of the accumulated result.
put_rows-rows_data :
    (rs : ResultSet) (rows : List Row)
    → (put_rows rs rows).rows_data ≡ rs.rows_data ++ map values rows
unfolding put_rows put_row
put_rows-rows_data rs [] = sym (append-nil rs.rows_data)
put_rows-rows_data rs (row ∷ rows) =
    put_rows-rows_data (put_row rs row) rows
    ∙ append_assoc rs.rows_data (values row ∷ []) (map values rows)

put_rows-cols :
    (rs : ResultSet) (rows : List Row) → (put_rows rs rows).cols ≡ last_length rs.cols rows
unfolding put_rows put_row last_length
put_rows-cols rs [] = refl
put_rows-cols rs (row ∷ rows) = put_rows-cols (put_row rs row) rows

put_rows-order_kept :
    (rs : ResultSet) (rows : List Row)
    → 0 < length rs.rows_data
    → (put_rows rs rows).column_order ≡ rs.column_order
unfolding put_rows
put_rows-order_kept rs [] h = refl
put_rows-order_kept rs (row ∷ rows) h =
    put_rows-order_kept (put_row rs row) rows (omega (arith, length-put_row rs row))
    ∙ unfold put_row in ground arith

put_rows-order : (rows : List Row) → (put_rows make_result_set rows).column_order ≡ first_names rows
unfolding put_rows make_result_set first_names
put_rows-order [] = refl
put_rows-order (row ∷ rows) =
    put_rows-order_kept (put_row make_result_set row) rows
      (omega (arith, length-put_row make_result_set row))
    ∙ unfold put_row in refl

put_rows-result_of : (rows : List Row) → put_rows make_result_set rows ≡ result_of rows
unfolding result_of make_result_set
put_rows-result_of rows = λ i. record {
  rows_data = put_rows-rows_data make_result_set rows i;
  cols = put_rows-cols make_result_set rows i;
  column_order = put_rows-order rows i;
}

-- The executor gives the rows that its loops let through.
pub select_executor-passed_rows :
    (d : Doubles) (q : SelectQuery) (files : Files) (rows : List Row)
    → files q.table ≡ some (table_text rows)
    → All IsRow rows
    → Fits (passed_rows d q rows)
    → select_executor d q files ≡ ok (result_of (passed_rows d q rows))
unfolding select_executor
select_executor-passed_rows d q files rows at h (narrow, few) =
    rw (at, select_executor)
      (scan_table d q make_result_set rows h narrow (unfold make_result_set in omega arith)
        ∙ ap ok (put_rows-result_of (passed_rows d q rows)))

-- On a table that holds the lines of rows, whose cells hold no separator and whose lines fit the
-- buffers, the executor gives, in the order of the file, the rows that meet every condition, with
-- the columns that are asked for, as long as the result's arrays can hold them. A row meets a
-- condition if each of its values in that column passes the test that the operator names.
pub select_executor-select_rows :
    (d : Doubles) (q : SelectQuery) (files : Files) (rows : List Row)
    → files q.table ≡ some (table_text rows)
    → All IsRow rows
    → Fits (select_rows d q rows)
    → select_executor d q files ≡ ok (result_of (select_rows d q rows))
select_executor-select_rows d q files rows at h fits =
    let same = passed_rows-select_rows d q rows in
    let run = select_executor-passed_rows d q files rows at h (rw same fits) in rw same at run
