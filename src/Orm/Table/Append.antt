-- ===== src/Orm/Table/Append.antt =====
-- Inserting a row, and what a query finds afterwards.
use cbank_system.Prelude.{
  ℕ, ◌≡◌, ◌≢◌, ◌↔◌, refl, ap, ◌∙◌, sym, true, List, [], ◌∷◌, ◌++◌, some, arith, All, All-append,
  append_assoc, Bool-cases, inl, inr, all,
}
use cbank_system.Prelude.Ret.{ok}
use cbank_system.Text.{Bytes, codes, bytes_eq, bytes_eq_iff, bytes_eq_refl}
use cbank_system.Orm.Files.{Files, contents_of, put_file, append_file}
use cbank_system.Orm.Insert.{row_text, insert_query_executor}
use cbank_system.Orm.Filtering.{Doubles, WhereCondition, compare}
use cbank_system.Orm.Select.{SelectQuery}
use cbank_system.Orm.Select.Scan.{line_pairs, clause_allows, pairs_pass, select_executor}
use cbank_system.Orm.Table.{Row, IsCell, IsRow, line_of, table_text, select_rows, result_of}
use cbank_system.Orm.Table.Meaning.{row_text-line_of}
use cbank_system.Orm.Table.Lines.{line_pairs-row_text}
use cbank_system.Orm.Table.Refine.{Fits, select_executor-select_rows}

table_text-append :
    (rows more : List Row) → table_text (rows ++ more) ≡ table_text rows ++ table_text more
unfolding table_text
table_text-append [] more = refl
table_text-append (row ∷ rows) more =
    rw (table_text-append rows more)
      (sym (append_assoc (line_of row) (10 ∷ table_text rows) (table_text more)))

executor-row :
    (table : Bytes) (row : Row) (files : Files)
    → row ≢ []
    → insert_query_executor (record { table = table; insert_pair = row }) files
      ≡ (0, append_file files table (row_text row ++ 10 ∷ []))
unfolding insert_query_executor
executor-row table [] files h = absurd (h refl)
executor-row table (p ∷ row) files h = refl

-- On a table of rows, a query with at least one pair succeeds, and changes one file: the table then holds one row more,
-- its cells "name=value" in their order with ";" between them, at the end.
pub insert_query_executor-table_text :
    (table : Bytes) (row : Row) (files : Files) (rows : List Row)
    → row ≢ []
    → contents_of files table ≡ table_text rows
    → insert_query_executor (record { table = table; insert_pair = row }) files
      ≡ (0, put_file files table (table_text (rows ++ row ∷ [])))
unfolding table_text
insert_query_executor-table_text table row files rows h at =
    executor-row table row files h
    ∙ ap (λ s. (0, put_file files table s))
        (ap (λ s. s ++ (row_text row ++ 10 ∷ [])) at
          ∙ ap (λ s. table_text rows ++ (s ++ 10 ∷ [])) (row_text-line_of row)
          ∙ sym (table_text-append rows (row ∷ [])))

put_file_same :
    (files : Files) (path contents : Bytes) → put_file files path contents path ≡ some contents
put_file_same files path contents = rw (bytes_eq_refl path)

All-snoc : (rows : List Row) (row : Row) → All IsRow rows → IsRow row → All IsRow (rows ++ row ∷ [])
All-snoc rows row h k = All-append IsRow rows (row ∷ []) h (k, tt)

-- For rows whose cells hold no separator and whose lines fit the buffers, and a result that its arrays
-- can hold, a query behind an insertion works on the table with the new row at the end: it returns,
-- in the order of the file, the columns asked for of those rows of the old table that meet every
-- condition, and of the new row if it meets them.
pub select_executor-insert_query_executor :
    (d : Doubles) (q : SelectQuery) (row : Row) (files : Files) (rows : List Row)
    → contents_of files q.table ≡ table_text rows
    → All IsRow rows
    → IsRow row
    → Fits (select_rows d q (rows ++ row ∷ []))
    → select_executor d q
        (insert_query_executor (record { table = q.table; insert_pair = row }) files).1
      ≡ ok (result_of (select_rows d q (rows ++ row ∷ [])))
select_executor-insert_query_executor d q row files rows at h is_row fits =
    let all_rows = table_text (rows ++ row ∷ []) in
    ap (λ (r : ℕ × Files). select_executor d q r.1)
      (insert_query_executor-table_text q.table row files rows is_row.0 at)
    ∙ select_executor-select_rows d q (put_file files q.table all_rows) (rows ++ row ∷ [])
        (put_file_same files q.table all_rows) (All-snoc rows row h is_row) fits

-- What a condition of equality asks of a row: every pair of that column has the value.
abbrev pub HasOnly : Bytes → Bytes → Row → Type 0
HasOnly column value = All (λ p. column ≡ p.0 → p.1 ≡ value)

abbrev pub equals : Bytes → Bytes → WhereCondition
equals column value = record { column = column; operator = codes "="; value = value }

pair_passes :
    (d : Doubles) (column value : Bytes) (p : List ℕ × List ℕ)
    → (all (clause_allows d p) (equals column value ∷ []) ≡ true) ↔ (column ≡ p.0 → p.1 ≡ value)
unfolding clause_allows compare
pair_passes d column value (k, v) = (
  λ e h. ground (arith, bytes_eq_iff column k, bytes_eq_iff v value, bytes_eq_refl (codes "=")),
  λ h. elim (Bool-cases (bytes_eq column k)) [
    | inl same ↦
        let is_value : v ≡ value = h ((bytes_eq_iff column k).0 same) in
        rw (same, bytes_eq_refl (codes "="), (bytes_eq_iff v value).1 is_value)
    | inr other ↦ rw other
  ],
)

-- A where clause for equality lets a row through exactly when every pair of that column has the
-- value: a row without the column is let through as well.
pub pairs_pass-equals_iff :
    (d : Doubles) (column value : Bytes) (row : Row)
    → (pairs_pass d (equals column value ∷ []) row ≡ true) ↔ HasOnly column value row
unfolding pairs_pass
pairs_pass-equals_iff d column value [] = (λ e. tt, λ h. refl)
pairs_pass-equals_iff d column value (p ∷ row) =
    let (to, from) = pair_passes d column value p in
    let (to_rest, from_rest) = pairs_pass-equals_iff d column value row in
    (λ e. (to (ground arith), to_rest (ground arith)), λ h. rw (from h.0) (from_rest h.1))

-- A value that holds a separator: the line is that of a row with one column more.
row_text-separator :
    (key value key' value' : Bytes) (rest : Row)
    → row_text ((key, value ++ b';' ∷ (key' ++ b'=' ∷ value')) ∷ rest)
      ≡ row_text ((key, value) ∷ (key', value') ∷ rest)
unfolding row_text
row_text-separator key value key' value' [] = refl
row_text-separator key value key' value' (p ∷ rest) = simp append_assoc

-- Values are written unescaped: a value that holds ";", a name, "=" and a text is read back as two
-- columns, the second with that name and text. The cells that are meant hold no separator.
pub line_pairs-separator :
    (key value key' value' : Bytes) (rest : Row)
    → All IsCell ((key, value) ∷ (key', value') ∷ rest)
    → line_pairs (row_text ((key, value ++ b';' ∷ (key' ++ b'=' ∷ value')) ∷ rest))
      ≡ (key, value) ∷ (key', value') ∷ rest
line_pairs-separator key value key' value' rest cells =
    ap line_pairs (row_text-separator key value key' value' rest)
    ∙ line_pairs-row_text ((key, value) ∷ (key', value') ∷ rest) (λ e. cc) cells
