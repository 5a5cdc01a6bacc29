-- ===== src/Orm/Table/Meaning.antt =====
-- orm/select_query.c and orm/insert_query.c: the loops of the code against what a query and a row mean.
use cbank_system.Prelude.{
  ℕ, ◌≡◌, refl, ap, ◌∙◌, sym, Bool, true, false, ◌&&◌, List, [], ◌∷◌, ◌++◌, all, replicate,
  append_assoc, Bool-cases, inl, inr,
}
use cbank_system.Text.{Bytes, bytes_eq}
use cbank_system.Orm.Insert.{row_text}
use cbank_system.Orm.Filtering.{Doubles, WhereCondition, compare}
use cbank_system.Orm.Select.{SelectQuery}
use cbank_system.Orm.Select.Scan.{clause_allows, pairs_pass, keep_column, keep_columns}
use cbank_system.Orm.Table.{
  Row, join, line_of, table_text, tests, test_named, values_in, meets, count_name, asked_of,
  select_rows, passed_rows,
}

-- The loop of `fprintf` joins the cells.
pub row_text-line_of : (row : Row) → row_text row ≡ line_of row
unfolding row_text line_of join
row_text-line_of [] = refl
row_text-line_of ((key, value) ∷ []) = refl
row_text-line_of ((key, value) ∷ p ∷ row) =
    ap (λ s. key ++ b'=' ∷ (value ++ b';' ∷ s)) (row_text-line_of (p ∷ row))
    ∙ sym (append_assoc key (b'=' ∷ value) (b';' ∷ line_of (p ∷ row)))

-- A table by the lines that the code writes.
pub table_text_step :
    (row : Row) (rows : List Row) → table_text (row ∷ rows) ≡ row_text row ++ 10 ∷ table_text rows
unfolding table_text
table_text_step row rows = rw (row_text-line_of row) refl

-- The chain of tests in `compare` is the table of tests.
compare-test_named :
    (d : Doubles) (left op right : Bytes)
    → compare d left op right ≡ test_named (tests d) op left right
unfolding compare test_named
compare-test_named d left op right = refl

-- One pair in front of a row.
meets_step :
    (d : Doubles) (p : List ℕ × List ℕ) (row : Row) (c : WhereCondition)
    → meets d (p ∷ row) c ≡ (clause_allows d p c && meets d row c)
unfolding meets values_in clause_allows
meets_step d (key, value) row c = elim (Bool-cases (bytes_eq c.column key)) [
  | inl e ↦ rw (e, compare-test_named d value c.operator c.value) refl
  | inr e ↦ rw e refl
]

meets_nil : (d : Doubles) (cs : List WhereCondition) → all (meets d []) cs ≡ true
unfolding meets values_in
meets_nil d [] = refl
meets_nil d (c ∷ cs) = meets_nil d cs

and_exchange : (a b c e : Bool) → ((a && b) && (c && e)) ≡ ((a && c) && (b && e))
and_exchange true true c e = refl
and_exchange true false true e = refl
and_exchange true false false e = refl
and_exchange false b c e = refl

-- The conditions on a row with one pair more.
all-meets_step :
    (d : Doubles) (p : List ℕ × List ℕ) (row : Row) (cs : List WhereCondition)
    → all (meets d (p ∷ row)) cs ≡ (all (clause_allows d p) cs && all (meets d row) cs)
all-meets_step d p row [] = refl
all-meets_step d p row (c ∷ cs) =
    rw (meets_step d p row c, all-meets_step d p row cs)
      (and_exchange (clause_allows d p c) (meets d row c) (all (clause_allows d p) cs)
        (all (meets d row) cs))

-- The nested loops over pairs and conditions ask what the conditions mean.
pairs_pass-meets :
    (d : Doubles) (cs : List WhereCondition) (row : Row)
    → pairs_pass d cs row ≡ all (meets d row) cs
unfolding pairs_pass
pairs_pass-meets d cs [] = sym (meets_nil d cs)
pairs_pass-meets d cs (p ∷ row) =
    ap (λ b. all (clause_allows d p) cs && b) (pairs_pass-meets d cs row)
    ∙ sym (all-meets_step d p row cs)

keep_column-count_name :
    (columns : List Bytes) (p : List ℕ × List ℕ)
    → keep_column columns p ≡ replicate (count_name p.0 columns) p
unfolding keep_column count_name
keep_column-count_name [] p = refl
keep_column-count_name (column ∷ columns) p = elim (Bool-cases (bytes_eq column p.0)) [
  | inl e ↦ rw e (ap (λ r. p ∷ r) (keep_column-count_name columns p))
  | inr e ↦ rw e (keep_column-count_name columns p)
]

keep_columns-asked_of :
    (columns : List Bytes) (row : Row) → keep_columns columns row ≡ asked_of columns row
unfolding keep_columns asked_of
keep_columns-asked_of columns [] = refl
keep_columns-asked_of columns (p ∷ row) =
    rw (keep_column-count_name columns p, keep_columns-asked_of columns row) refl

pub passed_rows-select_rows :
    (d : Doubles) (q : SelectQuery) (rows : List Row) → passed_rows d q rows ≡ select_rows d q rows
unfolding passed_rows select_rows
passed_rows-select_rows d q [] = refl
passed_rows-select_rows d q (row ∷ rows) =
    rw
      (
        pairs_pass-meets d q.conditions row,
        keep_columns-asked_of q.columns row,
        passed_rows-select_rows d q rows,
      )
      refl
