-- ===== src/Data/Identity/Entries.antt =====
-- The lines of the tracker as the executor of queries reads them.
use cbank_system.Prelude.{
  ℕ, ◌≡◌, refl, ap, ◌∙◌, Bool, true, false, List, [], ◌∷◌, ◌++◌, map, append-nil, take_of_le, All,
  arith,
}
use cbank_system.Prelude.Ret.{Ret, ◌>>=◌}
use cbank_system.Text.{
  Bytes, Lacks, codes, tokens, is_char, strchr, print_nat, print_nat-IsDigit, is_digit, fgets_lines,
  fgets_lines-append,
}
use cbank_system.Text.Laws.{strcspn_cut-append, tokens-append, tokens-last}
use cbank_system.Orm.Filtering.{Doubles, WhereCondition}
use cbank_system.Orm.Insert.{row_text}
use cbank_system.Orm.Select.{SelectQuery}
use cbank_system.Orm.Select.Scan.{
  ResultSet, read_pairs, line_pairs, where_allows, apply_select_where, scan_line, scan_lines,
}
use cbank_system.Orm.Table.{Row, table_text}
use cbank_system.Orm.Table.Meaning.{table_text_step}
use cbank_system.Data.Identity.Tracker.{
  Identity, line_end, identity_row, tracker_text, IsIdentity, digits-Lacks, identity_row-Lacks,
  length-identity_row,
}

-- The columns of an entry, whether its line is closed or not.
abbrev pub open_row : Identity → Row
open_row e = (codes "store", e.name) ∷ (codes "cur_id", print_nat e.cur_id) ∷ []

store_cell : (e : Identity) → Bytes
store_cell e = codes "store=" ++ e.name

id_cell : (n : ℕ) → Bytes
id_cell n = codes "cur_id=" ++ print_nat n

id_cell-Lacks : (n : ℕ) → Lacks b';' (id_cell n)
unfolding id_cell is_digit
id_cell-Lacks n = (
  omega arith,
  (
    omega arith,
    (
      omega arith,
      (
        omega arith,
        (
          omega arith,
          (omega arith, (omega arith, digits-Lacks b';' (print_nat n) refl (print_nat-IsDigit n))),
        ),
      ),
    ),
  ),
)

store_cell-Lacks : (e : Identity) → IsIdentity e → Lacks b';' (store_cell e)
unfolding store_cell
store_cell-Lacks e h =
    (omega arith, (omega arith, (omega arith, (omega arith, (omega arith, (omega arith, h.2))))))

id_tokens :
    (n : ℕ) (closed : Bool) → tokens (is_char b';') (id_cell n ++ line_end closed) ≡ id_cell n ∷ []
id_tokens n true =
    tokens-append b';' (id_cell n) [] (unfold id_cell in λ e. cc) (id_cell-Lacks n)
    ∙ unfold tokens in refl
id_tokens n false =
    rw (append-nil (id_cell n))
      (tokens-last b';' (id_cell n) (unfold id_cell in λ e. cc) (id_cell-Lacks n))

row_text-cells :
    (e : Identity)
    → row_text (identity_row e) ≡ store_cell e ++ b';' ∷ (id_cell e.cur_id ++ line_end e.closed)
unfolding row_text store_cell id_cell
row_text-cells e = refl

identity-tokens :
    (e : Identity)
    → IsIdentity e
    → tokens (is_char b';') (row_text (identity_row e)) ≡ store_cell e ∷ id_cell e.cur_id ∷ []
identity-tokens e h = rw (row_text-cells e) (
    tokens-append b';' (store_cell e) (id_cell e.cur_id ++ line_end e.closed)
      (unfold store_cell in λ f. cc) (store_cell-Lacks e h)
    ∙ ap (λ ts. store_cell e ∷ ts) (id_tokens e.cur_id e.closed))

identity-line_pairs :
    (e : Identity) → IsIdentity e → line_pairs (row_text (identity_row e)) ≡ open_row e
unfolding line_pairs
identity-line_pairs e h =
    rw (identity-tokens e h) (unfold read_pairs store_cell id_cell strchr in refl)

-- The same entry on a line that is not closed.
unfoldable pub opened : Identity → Identity
opened e = record { name = e.name; cur_id = e.cur_id; closed = false }

pub opened-IsIdentity : (e : Identity) → IsIdentity e → IsIdentity (opened e)
unfolding opened
opened-IsIdentity e h = h

where_allows-entry :
    (d : Doubles) (cs : List WhereCondition) (e : Identity)
    → IsIdentity e
    → where_allows d cs (row_text (identity_row e))
      ≡ where_allows d cs (row_text (identity_row (opened e)))
unfolding where_allows opened
where_allows-entry d [] e h = refl
where_allows-entry d (c ∷ cs) e h =
    let long = length-identity_row e h in
    let long' = length-identity_row (opened e) (opened-IsIdentity e h) in
    rw
      (
        take_of_le 1023 (row_text (identity_row e)) (omega arith),
        take_of_le 1023 (row_text (identity_row (opened e))) (omega arith),
        identity-line_pairs e h,
        identity-line_pairs (opened e) (opened-IsIdentity e h),
      )
      refl

scan_line-entry :
    (d : Doubles) (q : SelectQuery) (rs : ResultSet) (e : Identity)
    → IsIdentity e
    → scan_line d q rs (row_text (identity_row e) ++ 10 ∷ [])
      ≡ scan_line d q rs (row_text (identity_row (opened e)) ++ 10 ∷ [])
unfolding scan_line apply_select_where opened
scan_line-entry d q rs e h =
    rw
      (
        strcspn_cut-append 10 (row_text (identity_row e)) [] (identity_row-Lacks e h),
        strcspn_cut-append 10 (row_text (identity_row (opened e))) []
            (identity_row-Lacks (opened e) (opened-IsIdentity e h)),
        where_allows-entry d q.conditions e h,
        identity-line_pairs e h,
        identity-line_pairs (opened e) (opened-IsIdentity e h),
      )
      refl

>>=-cong :
    (call : Ret ResultSet) (f g : ResultSet → Ret ResultSet)
    → ((rs : ResultSet) → f rs ≡ g rs)
    → (call >>= f) ≡ (call >>= g)
>>=-cong (Ret.ok rs) f g h = h rs
>>=-cong Ret.null f g h = refl
>>=-cong Ret.fault f g h = refl

pub scan_lines-entries :
    (d : Doubles) (q : SelectQuery) (rs : ResultSet) (entries : List Identity)
    → All IsIdentity entries
    → scan_lines d q rs (fgets_lines 1023 (tracker_text entries))
      ≡ scan_lines d q rs (fgets_lines 1023 (tracker_text (map opened entries)))
unfolding scan_lines tracker_text
scan_lines-entries d q rs [] h = refl
scan_lines-entries d q rs (e ∷ entries) (he, h) =
    let h' = opened-IsIdentity e he in
    let long = length-identity_row e he in
    let long' = length-identity_row (opened e) h' in
    rw
      (
        fgets_lines-append 1023 (row_text (identity_row e)) (tracker_text entries)
            (identity_row-Lacks e he) (omega arith),
        fgets_lines-append 1023 (row_text (identity_row (opened e)))
            (tracker_text (map opened entries)) (identity_row-Lacks (opened e) h') (omega arith),
        scan_lines,
        scan_line-entry d q rs e he,
      )
      (>>=-cong (scan_line d q rs (row_text (identity_row (opened e)) ++ 10 ∷ [])) _ _
        (λ rs'. scan_lines-entries d q rs' entries h))

pub open-table_text :
    (entries : List Identity)
    → tracker_text (map opened entries) ≡ table_text (map open_row entries)
unfolding tracker_text opened
open-table_text [] = unfold table_text in refl
open-table_text (e ∷ entries) =
    rw
      (
        append-nil (print_nat e.cur_id),
        open-table_text entries,
        table_text_step (open_row e) (map open_row entries),
      )
      refl
