-- ===== src/Data/Users/Find.antt =====
-- data/user_store.c: the search for a user in a table of stored users.
use cbank_system.Prelude.{
  ℕ, suc, ◌≤◌, ◌<◌, ◌≡◌, refl, ap, true, false, List, [], ◌∷◌, map, Option, some, none, length,
  length-append, if◌then◌else◌, All, arith, lt→ltb, Bool-cases, inl, inr,
}
use cbank_system.Prelude.Ret.{ok}
use cbank_system.Text.{Bytes, Lacks, codes, bytes_eq, tokens}
use cbank_system.Orm.Files.{Files}
use cbank_system.Orm.Filtering.{Doubles, compare}
use cbank_system.Orm.Insert.{row_text}
use cbank_system.Orm.Select.{
  SelectQuery, db_user_section, new_select_query, rs_max_cols, qselect_all_from, qselect, qfrom,
  qwhere,
}
use cbank_system.Orm.Select.Scan.{
  full_line, line_text, pairs_pass, clause_allows, keep_columns, keep_column,
}
use cbank_system.Orm.Table.{
  Row, IsRow, table_text, passed_rows, result_of, last_length, first_names,
}
use cbank_system.Orm.Table.Refine.{Fits, select_executor-passed_rows}
use cbank_system.Orm.Table.Append.{equals}
use cbank_system.Data.Models.{no_user, GetUserByFieldResponse}
use cbank_system.Data.Users.{first_user, get_user_by_field, get_user_by_cpf}
use cbank_system.Data.Users.Mount.{
  StoredUser, stored_row, IsStored, mounted, mount_user_from_line_buf-stored_row,
}

-- A stored user whose values are on one line.
abbrev pub IsLine : StoredUser → Type 0
IsLine s =
    Lacks 10 s.id
    × Lacks 10 s.name
    × Lacks 10 s.cpf
    × Lacks 10 s.email
    × Lacks 10 s.password
    × Lacks 10 s.created_at

abbrev pub user_columns : List Bytes
user_columns =
    codes "id"
    ∷ codes "name"
    ∷ codes "cpf"
    ∷ codes "email"
    ∷ codes "password"
    ∷ codes "created_at"
    ∷ codes "updated_at"
    ∷ codes "is_active"
    ∷ []

-- The query for the users of a CPF.
abbrev pub cpf_query : Bytes → SelectQuery
cpf_query cpf = record {
  table = db_user_section;
  columns = user_columns;
  conditions = equals (codes "cpf") cpf ∷ [];
}

qselect_all_from-user :
    qselect_all_from new_select_query db_user_section
    ≡ ok (record { table = db_user_section; columns = user_columns; conditions = [] })
unfolding qselect_all_from qselect qfrom new_select_query bytes_eq tokens
qselect_all_from-user = refl

keep_columns-stored_row : (s : StoredUser) → keep_columns user_columns (stored_row s) ≡ stored_row s
unfolding keep_columns keep_column bytes_eq
keep_columns-stored_row s = refl

pairs_pass-stored_row :
    (d : Doubles) (cpf : Bytes) (s : StoredUser)
    → pairs_pass d (equals (codes "cpf") cpf ∷ []) (stored_row s) ≡ bytes_eq s.cpf cpf
unfolding pairs_pass clause_allows compare bytes_eq
pairs_pass-stored_row d cpf s = ground arith

length-stored_row : (s : StoredUser) → IsStored s → length (row_text (stored_row s)) < 1023
unfolding row_text
length-stored_row s (id, name, cpf, email, password, created) =
    rw
      (
        length-append s.id _,
        length-append s.name _,
        length-append s.cpf _,
        length-append s.email _,
        length-append s.password _,
        length-append s.created_at _,
      )
      (omega (arith, id.3, name.3, cpf.3, email.3, password.3, created.3))

-- The first user of a CPF.
unfoldable pub find_user : Bytes → List StoredUser → Option StoredUser
find_user cpf [] = none
find_user cpf (s ∷ users) =
    let later = find_user cpf users in if bytes_eq s.cpf cpf then some s else later

unfoldable pub users_of : Bytes → List StoredUser → List StoredUser
users_of cpf [] = []
users_of cpf (s ∷ users) =
    let later = users_of cpf users in if bytes_eq s.cpf cpf then s ∷ later else later

passed_rows-users_of :
    (d : Doubles) (cpf : Bytes) (users : List StoredUser)
    → passed_rows d (cpf_query cpf) (map stored_row users) ≡ map stored_row (users_of cpf users)
unfolding passed_rows users_of
passed_rows-users_of d cpf [] = refl
passed_rows-users_of d cpf (s ∷ users) =
    rw (pairs_pass-stored_row d cpf s, keep_columns-stored_row s, passed_rows-users_of d cpf users)
      (elim (Bool-cases (bytes_eq s.cpf cpf)) [ inl e ↦ rw e refl | inr e ↦ rw e refl ])

pub stored_row-IsRow : (s : StoredUser) → IsStored s → IsLine s → IsRow (stored_row s)
stored_row-IsRow s h (id, name, cpf, email, password, created) =
    let (hid, hname, hcpf, hemail, hpassword, hcreated) = h in
    (
      λ e. cc,
      (
        (omega arith, omega arith, omega arith, hid.2, id),
        (
          (omega arith, omega arith, omega arith, hname.2, name),
          (
            (omega arith, omega arith, omega arith, hcpf.2, cpf),
            (
              (omega arith, omega arith, omega arith, hemail.2, email),
              (
                (omega arith, omega arith, omega arith, hpassword.2, password),
                (
                  (omega arith, omega arith, omega arith, omega arith, omega arith),
                  (
                    (omega arith, omega arith, omega arith, hcreated.2, created),
                    ((omega arith, omega arith, omega arith, omega arith, omega arith), tt),
                  ),
                ),
              ),
            ),
          ),
        ),
      ),
      length-stored_row s h,
    )

-- A stored user whose row is one line of the table.
abbrev pub IsUser : StoredUser → Type 0
IsUser s = IsStored s × IsLine s

pub rows-IsRow : (users : List StoredUser) → All IsUser users → All IsRow (map stored_row users)
rows-IsRow [] h = tt
rows-IsRow (s ∷ users) ((stored, line), h) = (stored_row-IsRow s stored line, rows-IsRow users h)

rows_narrow :
    (users : List StoredUser) → All (λ (row : Row). length row ≤ rs_max_cols) (map stored_row users)
rows_narrow [] = tt
rows_narrow (s ∷ users) = (omega arith, rows_narrow users)

length-rows : (users : List StoredUser) → length (map stored_row users) ≡ length users
length-rows [] = refl
length-rows (s ∷ users) = ap suc (length-rows users)

pub rows-Fits : (users : List StoredUser) → length users ≤ 100 → Fits (map stored_row users)
rows-Fits users h = (rows_narrow users, omega (arith, length-rows users))

last_length-rows :
    (n : ℕ) (users : List StoredUser) → n ≡ 8 → last_length n (map stored_row users) ≡ 8
unfolding last_length
last_length-rows n [] h = h
last_length-rows n (s ∷ users) h = last_length-rows 8 users refl

pub full_line-rows :
    (s : StoredUser) (users : List StoredUser)
    → IsStored s
    → full_line (result_of (map stored_row (s ∷ users))) 0 1024 ≡ ok (row_text (stored_row s))
unfolding full_line result_of last_length first_names line_text row_text
full_line-rows s users h = rw (last_length-rows 8 users refl) (
    unfold line_text in
    rw (lt→ltb (length (row_text (stored_row s))) 1024 (omega (arith, length-stored_row s h))) refl)

-- The first row of a result is printed into the buffer as it stands in the table.
first_user-rows :
    (s : StoredUser) (users : List StoredUser)
    → IsStored s
    → first_user (result_of (map stored_row (s ∷ users)))
      ≡ ok (record { user = mounted s; success = true })
unfolding first_user result_of
first_user-rows s users h =
    rw (full_line-rows s users h, first_user, mount_user_from_line_buf-stored_row s h)
      (ground arith)

first_user-none : first_user (result_of []) ≡ ok (record { user = no_user; success = false })
unfolding first_user result_of
first_user-none = refl

-- The answer to a search, from the user that was meant.
unfoldable pub found_user : Option StoredUser → GetUserByFieldResponse
unfolding mounted
found_user none = record { user = no_user; success = false }
found_user (some s) = record { user = mounted s; success = true }

-- The rows of a CPF, and what is made of the first.
first_user-found_user :
    (cpf : Bytes) (users : List StoredUser)
    → All IsUser users
    → first_user (result_of (map stored_row (users_of cpf users)))
      ≡ ok (found_user (find_user cpf users))
unfolding find_user users_of found_user
first_user-found_user cpf [] h = first_user-none
first_user-found_user cpf (s ∷ users) ((stored, line), h) = elim (Bool-cases (bytes_eq s.cpf cpf)) [
  | inl e ↦ rw e (first_user-rows s (users_of cpf users) stored)
  | inr e ↦ rw e (first_user-found_user cpf users h)
]

-- In a table of stored users, of which at most a hundred have a CPF, the search by that CPF returns the
-- first of them, and reports failure if there is none.
pub get_user_by_cpf-find_user :
    (d : Doubles) (files : Files) (cpf : Bytes) (users : List StoredUser)
    → files db_user_section ≡ some (table_text (map stored_row users))
    → All IsUser users
    → length (users_of cpf users) ≤ 100
    → get_user_by_cpf d files cpf ≡ ok (found_user (find_user cpf users))
unfolding get_user_by_cpf get_user_by_field qwhere
get_user_by_cpf-find_user d files cpf users at h few =
    let run =
      select_executor-passed_rows d (cpf_query cpf) files (map stored_row users) at
        (rows-IsRow users h)
        (rw (passed_rows-users_of d cpf users) (rows-Fits (users_of cpf users) few)) in
    rw (qselect_all_from-user, rw (passed_rows-users_of d cpf users) at run)
      (first_user-found_user cpf users h)
