-- ===== src/Orm/Insert.antt =====
-- orm/insert_query.c: a row is appended to a table as one line of text.
use cbank_system.Prelude.{ℕ, List, [], ◌∷◌, ◌++◌, length, leb, if◌then◌else◌}
use cbank_system.Text.{Bytes}
use cbank_system.Orm.Files.{Files, append_file}

-- A pair is a column's name and its value.
pub record InsertQuery : Type 0 where
  pub table : Bytes
  pub insert_pair : List (List ℕ × List ℕ)

abbrev pub max_insert_pairs : ℕ
max_insert_pairs = 50

unfoldable pub new_insert_query : InsertQuery
new_insert_query = record { table = []; insert_pair = [] }

-- A pair past the fiftieth is dropped.
unfoldable pub set_for_insert : InsertQuery → Bytes → Bytes → InsertQuery
set_for_insert q column value =
    if leb max_insert_pairs (length q.insert_pair)
    then q
    else record q { insert_pair = q.insert_pair ++ (column, value) ∷ [] }

unfoldable pub insert_query_into : InsertQuery → Bytes → InsertQuery
insert_query_into q table = record q { table = table }

-- The loop of `fprintf`: "column=value", with ";" behind each pair but the last.
unfoldable pub row_text : List (List ℕ × List ℕ) → Bytes
row_text [] = []
row_text ((column, value) ∷ []) = column ++ b'=' ∷ value
row_text ((column, value) ∷ p ∷ pairs) = column ++ b'=' ∷ (value ++ b';' ∷ row_text (p ∷ pairs))

-- The result code and the files; a query without a pair is refused.
unfoldable pub insert_query_executor : InsertQuery → Files → ℕ × Files
insert_query_executor q files = elim q.insert_pair [
  | [] ↦ (1, files)
  | p ∷ pairs ↦ (0, append_file files q.table (row_text (p ∷ pairs) ++ 10 ∷ []))
]
