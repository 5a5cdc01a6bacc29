-- ===== src/Orm/Table/Lines.antt =====
-- A row's line is read back as the row.
use cbank_system.Prelude.{
  ℕ, ◌≡◌, ◌≢◌, refl, ap, ◌∙◌, sym, true, List, [], ◌∷◌, ◌++◌, map, take_of_le, arith, All,
  All-append, append_assoc, if◌then◌else◌,
}
use cbank_system.Prelude.Ret.{ok}
use cbank_system.Text.{Bytes, Lacks, tokens, is_char, strcspn_cut}
use cbank_system.Text.Laws.{strchr-append, tokens-append, tokens-last, strcspn_cut-append}
use cbank_system.Orm.Insert.{row_text}
use cbank_system.Orm.Filtering.{Doubles, WhereCondition}
use cbank_system.Orm.Select.{SelectQuery}
use cbank_system.Orm.Select.Scan.{
  ResultSet, read_pairs, line_pairs, pairs_pass, where_allows, apply_select_where, keep_columns,
  add_row, scan_line,
}
use cbank_system.Orm.Table.{Row, IsCell, IsRow, cell_text}

cell_text-ne_nil : (p : List ℕ × List ℕ) → cell_text p ≢ []
cell_text-ne_nil ([], value) = λ e. cc
cell_text-ne_nil (c ∷ key, value) = λ e. cc

cell_text-Lacks :
    (b : ℕ) (key value : Bytes)
    → b'=' ≢ b
    → Lacks b key
    → Lacks b value
    → Lacks b (cell_text (key, value))
cell_text-Lacks b key value h hk hv = All-append _ key (b'=' ∷ value) hk (h, hv)

row_text_step :
    (p p' : List ℕ × List ℕ) (row : Row)
    → row_text (p ∷ p' ∷ row) ≡ cell_text p ++ b';' ∷ row_text (p' ∷ row)
unfolding row_text
row_text_step (key, value) p' row = simp append_assoc

tokens-row_text :
    (row : Row)
    → row ≢ []
    → All IsCell row
    → tokens (is_char b';') (row_text row) ≡ map cell_text row
tokens-row_text [] h cells = absurd (h refl)
tokens-row_text ((key, value) ∷ []) h ((k1, k2, k3, v1, v2), _) =
    unfold row_text in
    tokens-last b';' (cell_text (key, value)) (cell_text-ne_nil (key, value))
      (cell_text-Lacks b';' key value (λ e. omega arith) k2 v1)
tokens-row_text ((key, value) ∷ p' ∷ row) h ((k1, k2, k3, v1, v2), cells) =
    ap (tokens (is_char b';')) (row_text_step (key, value) p' row)
    ∙ tokens-append b';' (cell_text (key, value)) (row_text (p' ∷ row))
        (cell_text-ne_nil (key, value)) (cell_text-Lacks b';' key value (λ e. omega arith) k2 v1)
    ∙ ap (λ ts. cell_text (key, value) ∷ ts) (tokens-row_text (p' ∷ row) (λ e. cc) cells)

read_pairs-map : (row : Row) → All IsCell row → read_pairs (map cell_text row) ≡ row
unfolding read_pairs
read_pairs-map [] cells = refl
read_pairs-map ((key, value) ∷ row) ((k1, k2, k3, v1, v2), cells) =
    rw (strchr-append b'=' key value k1, read_pairs)
      (ap (λ r. (key, value) ∷ r) (read_pairs-map row cells))

-- The tokens of a row's line, cut at '=', are the row.
pub line_pairs-row_text : (row : Row) → row ≢ [] → All IsCell row → line_pairs (row_text row) ≡ row
unfolding line_pairs
line_pairs-row_text row h cells = rw (tokens-row_text row h cells) (read_pairs-map row cells)

pub row_text-Lacks : (row : Row) → All IsCell row → Lacks 10 (row_text row)
row_text-Lacks [] cells = unfold row_text in tt
row_text-Lacks ((key, value) ∷ []) ((k1, k2, k3, v1, v2), _) =
    unfold row_text in cell_text-Lacks 10 key value (λ e. omega arith) k3 v2
row_text-Lacks ((key, value) ∷ p' ∷ row) ((k1, k2, k3, v1, v2), cells) =
    rw (row_text_step (key, value) p' row) (
      All-append _ (cell_text (key, value)) _
        (cell_text-Lacks 10 key value (λ e. omega arith) k3 v2)
        ((λ e. omega arith), row_text-Lacks (p' ∷ row) cells))

pairs_pass-nil : (d : Doubles) (row : Row) → pairs_pass d [] row ≡ true
unfolding pairs_pass
pairs_pass-nil d [] = refl
pairs_pass-nil d (p ∷ row) = pairs_pass-nil d row

where_allows-row_text :
    (d : Doubles) (cs : List WhereCondition) (row : Row)
    → IsRow row
    → where_allows d cs (row_text row) ≡ pairs_pass d cs row
unfolding where_allows
where_allows-row_text d [] row h = sym (pairs_pass-nil d row)
where_allows-row_text d (c ∷ cs) row (some_cell, cells, fits) =
    rw (take_of_le 1023 (row_text row) (omega arith), line_pairs-row_text row some_cell cells)

cut-row_text : (row : Row) → IsRow row → strcspn_cut 10 (row_text row ++ 10 ∷ []) ≡ row_text row
cut-row_text row (some_cell, cells, fits) =
    strcspn_cut-append 10 (row_text row) [] (row_text-Lacks row cells)

-- One round of the executor on a row's line.
pub scan_line-row_text :
    (d : Doubles) (q : SelectQuery) (rs : ResultSet) (row : Row)
    → IsRow row
    → scan_line d q rs (row_text row ++ 10 ∷ [])
      ≡ (if pairs_pass d q.conditions row then add_row rs (keep_columns q.columns row) else ok rs)
unfolding scan_line apply_select_where
scan_line-row_text d q rs row h = rw (
  cut-row_text row h,
  where_allows-row_text d q.conditions row h,
  line_pairs-row_text row h.0 h.1,
)
