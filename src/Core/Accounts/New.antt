-- ===== src/Core/Accounts/New.antt =====
-- core/acc.c: what `make_new_account` writes, and what it returns.
use cbank_system.Prelude.{
  ℕ, zero, suc, ◌≤◌, ◌<◌, ◌≡◌, refl, ap, List, [], ◌∷◌, ◌++◌, map, Option, some, length,
  length-append, All, All-append, arith, Bool-cases, inl, inr, replicate,
}
use cbank_system.Prelude.Ret.{ok}
use cbank_system.Text.{
  Bytes, Lacks, codes, bytes_eq, bytes_eq_refl, strstr, starts_with, print_nat, is_digit,
  print_nat-IsDigit, length-print_nat, ten_pow,
}
use cbank_system.Orm.Files.{Files, put_file, contents_of}
use cbank_system.Orm.Filtering.{Doubles}
use cbank_system.Orm.Insert.{row_text, new_insert_query, insert_query_into, set_for_insert}
use cbank_system.Orm.Select.{
  SelectQuery, db_account_section, new_select_query, qfrom, qwhere, rs_max_cols,
}
use cbank_system.Orm.Select.Scan.{keep_columns, keep_column, pairs_pass, full_line, line_text}
use cbank_system.Orm.Table.{Row, IsRow, table_text, passed_rows, result_of, last_length}
use cbank_system.Orm.Table.Refine.{select_executor-passed_rows}
use cbank_system.Orm.Table.Append.{equals, insert_query_executor-table_text}
use cbank_system.Utils.{get_fmt_now}
use cbank_system.Data.Models.{BankUser}
use cbank_system.Data.Accounts.{no_account, mount_acc_from_line_buf}
use cbank_system.Data.Fields.{has_fields, int_max}
use cbank_system.Data.Identity.{db_id_tracker_section}
use cbank_system.Data.Identity.Tracker.{Identity, IsIdentity, tracker_text, digits-Lacks}
use cbank_system.Data.Identity.Update.{bump, updt_next_identity-tracker_text}
use cbank_system.Data.Identity.Query.{entries_of, first_identity}
use cbank_system.Core.Accounts.{account_row, make_new_account}

-- The row of a new account.
abbrev pub new_row : Bytes → Bytes → ℕ → Row
new_row now user_id n =
    (codes "id", print_nat n)
    ∷ (codes "user_id_fk", user_id)
    ∷ (codes "balance", codes "0.000")
    ∷ (codes "created_at", now)
    ∷ (codes "updated_at", codes "NULL")
    ∷ []

-- A text of at most 19 bytes that a cell can hold.
abbrev pub IsShort : Bytes → Type 0
IsShort s = Lacks b';' s × Lacks 10 s × (length s ≤ 19)

new_row-IsRow :
    (now user_id : Bytes) (n : ℕ)
    → IsShort now
    → IsShort user_id
    → n < int_max
    → IsRow (new_row now user_id n)
unfolding row_text is_digit
new_row-IsRow now user_id n (now_semi, now_nl, now_fits) (id_semi, id_nl, id_fits) small = (
  (λ e. cc),
  (
    (
      omega arith,
      omega arith,
      omega arith,
      digits-Lacks b';' (print_nat n) refl (print_nat-IsDigit n),
      digits-Lacks 10 (print_nat n) refl (print_nat-IsDigit n),
    ),
    (
      (omega arith, omega arith, omega arith, id_semi, id_nl),
      (
        (omega arith, omega arith, omega arith, omega arith, omega arith),
        (
          (omega arith, omega arith, omega arith, now_semi, now_nl),
          ((omega arith, omega arith, omega arith, omega arith, omega arith), tt),
        ),
      ),
    ),
  ),
  rw (length-append (print_nat n) _, length-append user_id _, length-append now _)
      (omega (arith, length-print_nat n 9 (unfold ten_pow in omega arith))),
)

account_row-new_row :
    (now user_id : Bytes) (n : ℕ)
    → account_row now (print_nat n) user_id
      ≡ record { table = db_account_section; insert_pair = new_row now user_id n }
unfolding account_row set_for_insert insert_query_into new_insert_query
account_row-new_row now user_id n = refl

-- A query that asks for no column.
abbrev bare_query : Bytes → SelectQuery
bare_query id = record {
  table = db_account_section;
  columns = [];
  conditions = equals (codes "id") id ∷ [];
}

keep_columns_bare : (row : Row) → keep_columns [] row ≡ []
unfolding keep_columns keep_column
keep_columns_bare [] = refl
keep_columns_bare (p ∷ row) = keep_columns_bare row

passed_rows-bare :
    (d : Doubles) (id : Bytes) (rows : List Row)
    → (n : ℕ) × (passed_rows d (bare_query id) rows ≡ replicate n []) × (n ≤ length rows)
unfolding passed_rows
passed_rows-bare d id [] = (0, refl, omega arith)
passed_rows-bare d id (row ∷ rows) =
    let (n, e, h) = passed_rows-bare d id rows in
    elim (Bool-cases (pairs_pass d (equals (codes "id") id ∷ []) row)) [
      | inl f ↦ rw (f, keep_columns_bare row, e) (suc n, refl, omega arith)
      | inr f ↦ rw (f, e) (n, refl, omega arith)
    ]

bare_narrow : (n : ℕ) → All (λ (row : Row). length row ≤ rs_max_cols) (replicate n [])
bare_narrow zero = tt
bare_narrow (suc n) = (omega arith, bare_narrow n)

length-bare : (n : ℕ) → length (replicate {A = Row} n []) ≡ n
length-bare zero = refl
length-bare (suc n) = ap suc (length-bare n)

last_length-bare : (n : ℕ) → last_length 0 (replicate n []) ≡ 0
unfolding last_length
last_length-bare zero = refl
last_length-bare (suc n) = last_length-bare n

full_line-bare : (n : ℕ) → full_line (result_of (replicate n [])) 0 1024 ≡ ok []
unfolding full_line result_of last_length line_text
full_line-bare zero = refl
full_line-bare (suc n) = rw (last_length-bare n) (unfold line_text in refl)

mount_empty : (d : Doubles) → mount_acc_from_line_buf d [] ≡ ok (no_account d)
unfolding mount_acc_from_line_buf has_fields strstr starts_with
mount_empty d = refl

-- What a new account makes of the files.
unfoldable pub with_account : Files → Bytes → Bytes → ℕ → List Row → List Identity → Files
with_account files now user_id n accounts entries =
    let inserted =
      put_file files db_account_section (table_text (accounts ++ new_row now user_id n ∷ [])) in
    put_file inserted db_id_tracker_section (tracker_text (map (bump db_account_section) entries))

-- On a table of accounts with room in a result, and a tracker whose numbers can be counted up,
-- `make_new_account` appends a row with the next number and the user's, counts the number up,
-- changes no other file, and returns an account of zero bytes.
pub make_new_account-new_row :
    (d : Doubles) (stack : Option (List ℕ)) (now : Bytes) (files : Files) (user : BankUser)
    (accounts : List Row) (entries more : List Identity) (e : Identity)
    → get_fmt_now stack ≡ ok now
    → files db_account_section ≡ some (table_text accounts)
    → All IsRow accounts
    → length accounts < 100
    → files db_id_tracker_section ≡ some (tracker_text entries)
    → All IsIdentity entries
    → IsIdentity e
    → length (entries_of db_account_section entries) ≤ 100
    → entries_of db_account_section entries ≡ e ∷ more
    → IsShort now
    → IsShort user.id
    → make_new_account d stack files user
      ≡ ok (with_account files now user.id e.cur_id accounts entries, no_account d)
unfolding make_new_account with_account qfrom qwhere new_select_query
make_new_account-new_row d stack now files user accounts entries more e read at rows few tracker h
      he few_entries first now_short id_short =
    let row = new_row now user.id e.cur_id in
    let inserted = put_file files db_account_section (table_text (accounts ++ row ∷ [])) in
    let insert =
      insert_query_executor-table_text db_account_section row files accounts (λ f. cc)
        (rw (at, contents_of) refl) in
    let (n, bare, small) = passed_rows-bare d (print_nat e.cur_id) (accounts ++ row ∷ []) in
    let total = length-append accounts (row ∷ []) in
    let run =
      select_executor-passed_rows d (bare_query (print_nat e.cur_id)) inserted
        (accounts ++ row ∷ []) (rw (bytes_eq_refl db_account_section) refl)
        (All-append IsRow accounts (row ∷ []) rows
          (new_row-IsRow now user.id e.cur_id now_short id_short he.5, tt))
        (rw bare (bare_narrow n, omega (arith, length-bare n))) in
    let update =
      updt_next_identity-tracker_text inserted db_account_section entries
        (unfold bytes_eq in rw (tracker, contents_of) refl) h in
    rw
      (
        first_identity d files db_account_section entries more e tracker h he few_entries first,
        read,
        account_row-new_row now user.id e.cur_id,
        insert,
        rw bare at run,
        full_line-bare n,
        mount_empty d,
        update,
      )
      refl
