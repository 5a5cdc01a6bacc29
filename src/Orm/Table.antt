-- ===== src/Orm/Table.antt =====
-- A table as its rows, and what a query means on rows.
pub mod Lines
pub mod Meaning
pub mod Refine
pub mod Append
use cbank_system.Prelude.{
  ℕ, ◌+◌, ◌≤◌, ◌<◌, ◌≢◌, List, [], ◌∷◌, ◌++◌, map, length, All, zero, suc, Bool, true, false, not,
  all, replicate, if◌then◌else◌,
}
use cbank_system.Text.{Bytes, Lacks, codes, bytes_eq}
use cbank_system.Orm.Insert.{row_text}
use cbank_system.Orm.Filtering.{Doubles, WhereCondition}
use cbank_system.Orm.Select.{SelectQuery}
use cbank_system.Orm.Select.Scan.{ResultSet, pairs_pass, keep_columns, names, values}

-- A row pairs the names of its columns with values, in the order of the file.
abbrev pub Row : Type 0
Row = List (List ℕ × List ℕ)

-- A name and a value that the line syntax does not break; a value may hold '='.
abbrev pub IsCell : List ℕ × List ℕ → Type 0
IsCell (key, value) =
    Lacks b'=' key × Lacks b';' key × Lacks 10 key × Lacks b';' value × Lacks 10 value

-- A row whose line fits the buffers of the executor.
abbrev pub IsRow : Row → Type 0
IsRow row = (row ≢ []) × All IsCell row × (length (row_text row) < 1023)

-- Texts with a separator between two of them.
unfoldable pub join : Bytes → List Bytes → Bytes
join separator [] = []
join separator (s ∷ []) = s
join separator (s ∷ t ∷ rest) = s ++ (separator ++ join separator (t ∷ rest))

abbrev pub cell_text : List ℕ × List ℕ → Bytes
cell_text (key, value) = key ++ b'=' ∷ value

-- A row as a line: a cell for each pair, in their order, with ";" between two cells.
unfoldable pub line_of : Row → Bytes
unfolding join
line_of row = join (codes ";") (map cell_text row)

-- The contents of a table's file: a line for each row.
unfoldable pub table_text : List Row → Bytes
unfolding line_of
table_text [] = []
table_text (row ∷ rows) = line_of row ++ 10 ∷ table_text rows

-- The tests that a condition may name.
abbrev pub tests : Doubles → List (List ℕ × (Bytes → Bytes → Bool))
tests d =
    (codes "=", λ l r. bytes_eq l r)
    ∷ (codes "!=", λ l r. not (bytes_eq l r))
    ∷ (codes ">", λ l r. d.gt (d.atof l) (d.atof r))
    ∷ (codes "<", λ l r. d.lt (d.atof l) (d.atof r))
    ∷ (codes ">=", λ l r. d.ge (d.atof l) (d.atof r))
    ∷ (codes "<=", λ l r. d.le (d.atof l) (d.atof r))
    ∷ []

-- The test of a name; every other name stands for no test, which fails.
unfoldable pub test_named : List (List ℕ × (Bytes → Bytes → Bool)) → Bytes → Bytes → Bytes → Bool
test_named [] op l r = false
test_named ((name, test) ∷ more) op l r =
    if bytes_eq op name then test l r else test_named more op l r

-- The values that a row has in a column.
unfoldable pub values_in : Bytes → Row → List Bytes
values_in column [] = []
values_in column ((key, value) ∷ row) =
    let later = values_in column row in if bytes_eq column key then value ∷ later else later

-- A condition asks its test of every value in its column.
unfoldable pub meets : Doubles → Row → WhereCondition → Bool
unfolding values_in test_named
meets d row c = all (λ v. test_named (tests d) c.operator v c.value) (values_in c.column row)

-- How often a name stands in a list.
unfoldable pub count_name : Bytes → List Bytes → ℕ
count_name name [] = 0
count_name name (column ∷ columns) =
    if bytes_eq column name then suc (count_name name columns) else count_name name columns

-- The pairs of a row whose names are asked for, in the row's order, each as often as it is asked for.
unfoldable pub asked_of : List Bytes → Row → Row
unfolding count_name
asked_of columns [] = []
asked_of columns (pair ∷ row) = replicate (count_name pair.0 columns) pair ++ asked_of columns row

-- What a query means: of the rows that meet every condition, the columns that are asked for.
unfoldable pub select_rows : Doubles → SelectQuery → List Row → List Row
unfolding meets asked_of
select_rows d q [] = []
select_rows d q (row ∷ rows) =
    let later = select_rows d q rows in
    if all (meets d row) q.conditions then asked_of q.columns row ∷ later else later

-- The rows that the loops of the code let through, with the columns that they keep.
unfoldable pub passed_rows : Doubles → SelectQuery → List Row → List Row
passed_rows d q [] = []
passed_rows d q (row ∷ rows) =
    let later = passed_rows d q rows in
    if pairs_pass d q.conditions row then keep_columns q.columns row ∷ later else later

unfoldable pub last_length : ℕ → List Row → ℕ
last_length n [] = n
last_length n (row ∷ rows) = last_length (length row) rows

unfoldable pub first_names : List Row → List Bytes
first_names [] = []
first_names (row ∷ rows) = names row

-- The result of a query as a function of the rows selected.
unfoldable pub result_of : List Row → ResultSet
unfolding last_length first_names
result_of rows = record {
  rows_data = map values rows;
  cols = last_length 0 rows;
  column_order = first_names rows;
}
