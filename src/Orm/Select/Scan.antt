-- ===== src/Orm/Select/Scan.antt =====
-- orm/select_query.c: the executor, and the ways to read a row of its result.
use cbank_system.Prelude.{
  ℕ, zero, suc, ◌+◌, Bool, true, ◌&&◌, List, [], ◌∷◌, ◌++◌, map, none, some, length, take,
  get_elem?, all, leb, ltb, ◌==◌, if◌then◌else◌,
}
use cbank_system.Prelude.Ret.{Ret, ok, null, fault, ◌>>=◌}
use cbank_system.Text.{Bytes, bytes_eq, strchr, strcspn_cut, tokens, is_char, fgets_lines}
use cbank_system.Orm.Files.{Files}
use cbank_system.Orm.Filtering.{Doubles, WhereCondition, compare}
use cbank_system.Orm.Select.{SelectQuery, rs_max_cols, rs_max_rows}

-- `rows` is the length of `rows_data`.
pub record ResultSet : Type 0 where
  pub rows_data : List (List Bytes)
  pub cols : ℕ
  pub column_order : List Bytes

unfoldable pub make_result_set : ResultSet
make_result_set = record { rows_data = []; cols = 0; column_order = [] }

-- A token at its first '='; a token without one is passed over.
unfoldable pub read_pairs : List Bytes → List (List ℕ × List ℕ)
read_pairs [] = []
read_pairs (token ∷ rest) =
    let later = read_pairs rest in
    elim (strchr b'=' token) [ none ↦ later | some pair ↦ pair ∷ later ]

-- The pairs of a line, token by token.
unfoldable pub line_pairs : Bytes → List (List ℕ × List ℕ)
line_pairs line = read_pairs (tokens (is_char b';') line)

-- One condition against one pair: it has no say over other columns.
unfoldable pub clause_allows : Doubles → List ℕ × List ℕ → WhereCondition → Bool
clause_allows d (key, value) clause =
    if bytes_eq clause.column key then compare d value clause.operator clause.value else true

-- The two nested loops of `apply_select_where`, which stop at the first clause that fails.
unfoldable pub pairs_pass : Doubles → List WhereCondition → List (List ℕ × List ℕ) → Bool
unfolding clause_allows
pairs_pass d conditions pairs = all (λ pair. all (clause_allows d pair) conditions) pairs

-- The line is copied into 1024 bytes. The two calls of `strtok_r` and `strchr` are `line_pairs`.
unfoldable pub where_allows : Doubles → List WhereCondition → Bytes → Bool
where_allows d [] line_buf = true
where_allows d (c ∷ cs) line_buf = pairs_pass d (c ∷ cs) (line_pairs (take 1023 line_buf))

unfoldable pub apply_select_where : Doubles → SelectQuery → Bytes → Bool
unfolding where_allows
apply_select_where d q line_buf = where_allows d q.conditions line_buf

-- The inner loop over the columns that are asked for: a column asked for twice is kept twice.
unfoldable pub keep_column : List Bytes → List ℕ × List ℕ → List (List ℕ × List ℕ)
keep_column [] pair = []
keep_column (column ∷ columns) pair =
    let later = keep_column columns pair in if bytes_eq column pair.0 then pair ∷ later else later

unfoldable pub keep_columns : List Bytes → List (List ℕ × List ℕ) → List (List ℕ × List ℕ)
keep_columns columns [] = []
keep_columns columns (pair ∷ pairs) = keep_column columns pair ++ keep_columns columns pairs

abbrev pub names : List (List ℕ × List ℕ) → List (List ℕ)
names = map (λ p. p.0)

abbrev pub values : List (List ℕ × List ℕ) → List (List ℕ)
values = map (λ p. p.1)

-- A row that was selected: it gives the number of columns, and the first one the column order.
-- The arrays have room for 20 columns and 100 rows.
unfoldable pub add_row : ResultSet → List (List ℕ × List ℕ) → Ret ResultSet
add_row rs row =
    if leb (length row) rs_max_cols && ltb (length rs.rows_data) rs_max_rows
    then ok (record {
      rows_data = rs.rows_data ++ values row ∷ [];
      cols = length row;
      column_order = if length rs.rows_data == 0 then names row else rs.column_order;
    })
    else fault

-- One round of the loop over the lines. The newline is cut off first.
unfoldable pub scan_line : Doubles → SelectQuery → ResultSet → Bytes → Ret ResultSet
scan_line d q rs piece =
    let line_buf = strcspn_cut 10 piece in
    if apply_select_where d q line_buf
    then add_row rs (keep_columns q.columns (line_pairs line_buf))
    else ok rs

unfoldable pub scan_lines : Doubles → SelectQuery → ResultSet → List Bytes → Ret ResultSet
scan_lines d q rs [] = ok rs
scan_lines d q rs (piece ∷ rest) = do rs' ← scan_line d q rs piece; scan_lines d q rs' rest

-- `fseek` is called on the stream before it is tested: a table with no file is a null pointer
-- followed.
unfoldable pub select_executor : Doubles → SelectQuery → Files → Ret ResultSet
select_executor d q files = elim (files q.table) [
  | none ↦ fault
  | some contents ↦ scan_lines d q make_result_set (fgets_lines 1023 contents)
]

-- "name=value" for each column, with ";" between; the loops of `full_line` and of
-- `get_line_from_resultset` in a buffer that is large enough. A value that is missing is a null
-- pointer for `%s`.
unfoldable pub line_text : List Bytes → List Bytes → ℕ → Ret Bytes
line_text columns line zero = ok []
line_text [] line (suc cols) = fault
line_text (column ∷ columns) [] (suc cols) = fault
line_text (column ∷ columns) (value ∷ line) (suc zero) = ok (column ++ b'=' ∷ value)
line_text (column ∷ columns) (value ∷ line) (suc (suc cols)) = do
  rest ← line_text columns line (suc cols)
  ok (column ++ b'=' ∷ (value ++ b';' ∷ rest))

-- `full_line` into a buffer of `buf_size` bytes that holds the empty string at first. A row that is
-- not there is a null pointer, which is followed if there is a column. Behind a text that fills the
-- buffer `snprintf` is given a size that has wrapped around; every text that does not fit counts as
-- a fault here, although a cut in the last value alone only shortens it.
unfoldable pub full_line : ResultSet → ℕ → ℕ → Ret Bytes
full_line result line_idx buf_size = elim (get_elem? result.rows_data line_idx) [
  | none ↦ (if result.cols == 0 then ok [] else fault)
  | some line ↦ (do
    text ← line_text result.column_order line result.cols
    if ltb (length text) buf_size then ok text else fault)
]

-- The value of a column in a row; without such a column the function ends with no value.
find_value : List Bytes → List Bytes → Bytes → ℕ → Ret Bytes
find_value columns line column zero = fault
find_value [] line column (suc cols) = fault
find_value (c ∷ columns) [] column (suc cols) = if bytes_eq c column then null else fault
find_value (c ∷ columns) (value ∷ line) column (suc cols) =
    if bytes_eq c column then ok value else find_value columns line column cols

unfoldable pub get_row_col_value : ResultSet → ℕ → Bytes → Ret Bytes
unfolding find_value
get_row_col_value rs row_idx column = elim (get_elem? rs.rows_data row_idx) [
  | none ↦ fault
  | some line ↦ find_value rs.column_order line column rs.cols
]

-- `line_len`, and one byte more that is allocated.
unfoldable pub line_len : List Bytes → List Bytes → ℕ → ℕ
line_len columns line zero = 0
line_len [] line (suc cols) = 0
line_len (column ∷ columns) [] (suc cols) = 0
line_len (column ∷ columns) (value ∷ line) (suc cols) =
    length column + 1 + length value + 1 + line_len columns line cols

-- The text is printed into `line_len` bytes, and a zero is written at `offset + 1`, which lies outside
-- a block of one byte. That what is printed fits is proved, not tested, so the loop is `line_text`.
unfoldable pub get_line_from_resultset : ResultSet → ℕ → Ret Bytes
get_line_from_resultset rs line_idx = elim (get_elem? rs.rows_data line_idx) [
  | none ↦ null
  | some line ↦ (if rs.cols == 0 then fault else line_text rs.column_order line rs.cols)
]
