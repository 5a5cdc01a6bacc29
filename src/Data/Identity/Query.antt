-- ===== src/Data/Identity/Query.antt =====
-- data/store.c: `get_next_identity` on a tracker of stores.
use cbank_system.Prelude.{
  ℕ, suc, ◌≤◌, ◌≡◌, refl, ap, List, [], ◌∷◌, map, some, append-nil, length, take_of_le,
  if◌then◌else◌, All, arith, Bool-cases, inl, inr,
}
use cbank_system.Prelude.Ret.{ok}
use cbank_system.Text.{
  Bytes, codes, bytes_eq, bytes_eq_refl, length-print_nat, ten_pow, tokens, print_nat,
  print_nat-IsDigit, is_digit,
}
use cbank_system.Orm.Files.{Files, put_file}
use cbank_system.Orm.Filtering.{Doubles, compare}
use cbank_system.Orm.Insert.{row_text}
use cbank_system.Orm.Select.{SelectQuery, rs_max_cols, new_select_query, qselect, qfrom, qwhere}
use cbank_system.Orm.Select.Scan.{
  make_result_set, select_executor, get_row_col_value, pairs_pass, clause_allows, keep_columns,
  keep_column,
}
use cbank_system.Orm.Table.{
  Row, IsRow, table_text, passed_rows, result_of, last_length, first_names,
}
use cbank_system.Orm.Table.Refine.{select_executor-passed_rows}
use cbank_system.Orm.Table.Append.{equals}
use cbank_system.Data.Identity.{db_id_tracker_section, get_next_identity}
use cbank_system.Data.Identity.Tracker.{
  Identity, tracker_text, IsIdentity, digits-Lacks, length-identity_row,
}
use cbank_system.Data.Identity.Entries.{
  open_row, opened, opened-IsIdentity, scan_lines-entries, open-table_text,
}

open_row-IsRow : (e : Identity) → IsIdentity e → IsRow (open_row e)
unfolding row_text is_digit opened
open_row-IsRow e (filled, equals, semi, nl, short, small) =
    let l =
      length-identity_row (opened e)
        (opened-IsIdentity e (filled, equals, semi, nl, short, small)) in
    (
      (λ f. cc),
      (
        (omega arith, omega arith, omega arith, semi, nl),
        (
          (
            omega arith,
            omega arith,
            omega arith,
            digits-Lacks b';' (print_nat e.cur_id) refl (print_nat-IsDigit e.cur_id),
            digits-Lacks 10 (print_nat e.cur_id) refl (print_nat-IsDigit e.cur_id),
          ),
          tt,
        ),
      ),
      omega (arith, rw (append-nil (print_nat e.cur_id)) at l),
    )

open_rows-IsRow :
    (entries : List Identity) → All IsIdentity entries → All IsRow (map open_row entries)
open_rows-IsRow [] h = tt
open_rows-IsRow (e ∷ entries) (he, h) = (open_row-IsRow e he, open_rows-IsRow entries h)

abbrev identity_query : Bytes → SelectQuery
identity_query store_name = record {
  table = db_id_tracker_section;
  columns = codes "cur_id" ∷ [];
  conditions = equals (codes "store") store_name ∷ [];
}

abbrev num_row : Identity → Row
num_row e = (codes "cur_id", print_nat e.cur_id) ∷ []

-- The entries of a store.
unfoldable pub entries_of : Bytes → List Identity → List Identity
entries_of store_name [] = []
entries_of store_name (e ∷ entries) =
    let later = entries_of store_name entries in
    if bytes_eq e.name store_name then e ∷ later else later

pairs_pass-open_row :
    (d : Doubles) (store_name : Bytes) (e : Identity)
    → pairs_pass d (equals (codes "store") store_name ∷ []) (open_row e)
      ≡ bytes_eq e.name store_name
unfolding pairs_pass clause_allows compare bytes_eq
pairs_pass-open_row d store_name e = ground arith

keep_columns-open_row : (e : Identity) → keep_columns (codes "cur_id" ∷ []) (open_row e) ≡ num_row e
unfolding keep_columns keep_column bytes_eq
keep_columns-open_row e = refl

passed_rows-entries_of :
    (d : Doubles) (store_name : Bytes) (entries : List Identity)
    → passed_rows d (identity_query store_name) (map open_row entries)
      ≡ map num_row (entries_of store_name entries)
unfolding passed_rows entries_of
passed_rows-entries_of d store_name [] = refl
passed_rows-entries_of d store_name (e ∷ entries) =
    rw
      (
        pairs_pass-open_row d store_name e,
        keep_columns-open_row e,
        passed_rows-entries_of d store_name entries,
      )
      (elim (Bool-cases (bytes_eq e.name store_name)) [ inl f ↦ rw f refl | inr f ↦ rw f refl ])

num_rows_narrow :
    (entries : List Identity) → All (λ (row : Row). length row ≤ rs_max_cols) (map num_row entries)
num_rows_narrow [] = tt
num_rows_narrow (e ∷ entries) = (omega arith, num_rows_narrow entries)

length-num_rows : (entries : List Identity) → length (map num_row entries) ≡ length entries
length-num_rows [] = refl
length-num_rows (e ∷ entries) = ap suc (length-num_rows entries)

last_length-num_rows :
    (n : ℕ) (entries : List Identity) → n ≡ 1 → last_length n (map num_row entries) ≡ 1
unfolding last_length
last_length-num_rows n [] h = h
last_length-num_rows n (e ∷ entries) h = last_length-num_rows 1 entries refl

first_cur_id :
    (e : Identity) (more : List Identity)
    → get_row_col_value (result_of (map num_row (e ∷ more))) 0 (codes "cur_id")
      ≡ ok (print_nat e.cur_id)
unfolding get_row_col_value result_of last_length first_names bytes_eq
first_cur_id e more = rw (last_length-num_rows 1 more refl) refl

qselect-cur_id :
    qselect new_select_query (codes "cur_id")
    ≡ ok (record { table = []; columns = codes "cur_id" ∷ []; conditions = [] })
unfolding qselect new_select_query tokens
qselect-cur_id = refl

-- What the query for a store's number gives.
select_identity :
    (d : Doubles) (files : Files) (store_name : Bytes) (entries : List Identity)
    → files db_id_tracker_section ≡ some (tracker_text entries)
    → All IsIdentity entries
    → length (entries_of store_name entries) ≤ 100
    → select_executor d (identity_query store_name) files
      ≡ ok (result_of (map num_row (entries_of store_name entries)))
unfolding select_executor
select_identity d files store_name entries at h few =
    let q = identity_query store_name in
    let disk = put_file files db_id_tracker_section (table_text (map open_row entries)) in
    let rows = passed_rows-entries_of d store_name entries in
    let run =
      select_executor-passed_rows d q disk (map open_row entries)
        (rw (bytes_eq_refl db_id_tracker_section) refl) (open_rows-IsRow entries h)
        (rw rows (
          num_rows_narrow (entries_of store_name entries),
          omega (arith, length-num_rows (entries_of store_name entries)),
        )) in
    let run' = rw (bytes_eq_refl db_id_tracker_section, select_executor, rows) at run in
    rw
      (
        at,
        select_executor,
        scan_lines-entries d q make_result_set entries h,
        open-table_text entries,
      )
      run'

pub first_identity :
    (d : Doubles) (files : Files) (store_name : Bytes) (entries more : List Identity) (e : Identity)
    → files db_id_tracker_section ≡ some (tracker_text entries)
    → All IsIdentity entries
    → IsIdentity e
    → length (entries_of store_name entries) ≤ 100
    → entries_of store_name entries ≡ e ∷ more
    → get_next_identity d files store_name 50 ≡ ok (print_nat e.cur_id)
unfolding get_next_identity qfrom qwhere
first_identity d files store_name entries more e at h he few first =
    rw
      (
        qselect-cur_id,
        select_identity d files store_name entries at h few,
        first,
        first_cur_id e more,
      )
      (ap ok (
        take_of_le 49 (print_nat e.cur_id)
          (omega (arith, length-print_nat e.cur_id 9 (unfold ten_pow in omega (arith, he.5))))))
