-- ===== src/Data/Users/Mount.antt =====
-- data/user_store.c: the user that is read from the text of a row that was stored.
use cbank_system.Prelude.{
  ℕ, ◌≤◌, ◌<◌, ◌≡◌, ◌≢◌, refl, true, false, [], ◌∷◌, ◌++◌, length, All, arith,
}
use cbank_system.Prelude.Ret.{ok}
use cbank_system.Text.{Bytes, Lacks, codes, strstr, starts_with, atol}
use cbank_system.Orm.Insert.{row_text}
use cbank_system.Orm.Table.{Row}
use cbank_system.Data.Models.{BankUser, name_max, cpf_digits, pwd_max}
use cbank_system.Data.Fields.{has_fields, is_found, scan_field, strcpy, to_int}
use cbank_system.Data.Fields.Search.{
  IsPlain, HasAt, skips, tail_text, scan_field-row_text, scan_int_field-row_text, is_found-row_text,
}
use cbank_system.Data.Users.{user_keys, scan_user, mount_user_from_line_buf}

-- What a row of the user table holds.
pub record StoredUser : Type 0 where
  pub id : Bytes
  pub name : Bytes
  pub cpf : Bytes
  pub email : Bytes
  pub password : Bytes
  pub created_at : Bytes

-- The row as `make_new_user` writes it.
abbrev pub stored_row : StoredUser → Row
stored_row s =
    (codes "id", s.id)
    ∷ (codes "name", s.name)
    ∷ (codes "cpf", s.cpf)
    ∷ (codes "email", s.email)
    ∷ (codes "password", s.password)
    ∷ (codes "is_active", codes "true")
    ∷ (codes "created_at", s.created_at)
    ∷ (codes "updated_at", codes "NULL")
    ∷ []

-- A value with at least one byte and none of the separators, no longer than `most`.
abbrev pub IsValue : ℕ → Bytes → Type 0
IsValue most value = (value ≢ []) × Lacks b'=' value × Lacks b';' value × (length value ≤ most)

-- The values that fit the arrays of a user.
abbrev pub IsStored : StoredUser → Type 0
IsStored s =
    IsValue 19 s.id
    × IsValue 49 s.name
    × IsValue 11 s.cpf
    × IsValue 49 s.email
    × IsValue 34 s.password
    × IsValue 19 s.created_at

-- What is read back: the e-mail is not, and "true" is no number.
unfoldable pub mounted : StoredUser → BankUser
mounted s = record {
  id = s.id;
  name = s.name;
  cpf = s.cpf;
  email = [];
  password = s.password;
  is_active = false;
  created_at = s.created_at;
  updated_at = codes "NULL";
}

stored_row-IsPlain : (s : StoredUser) → IsStored s → All IsPlain (stored_row s)
stored_row-IsPlain s (id, name, cpf, email, password, created) = (
  (omega arith, id.1),
  (
    (omega arith, name.1),
    (
      (omega arith, cpf.1),
      (
        (omega arith, email.1),
        (
          (omega arith, password.1),
          (
            (omega arith, omega arith),
            ((omega arith, created.1), ((omega arith, omega arith), tt)),
          ),
        ),
      ),
    ),
  ),
)

-- A key of the row with the place at which it stands.
field_found :
    (s : StoredUser) (key value : Bytes) (i : ℕ)
    → IsStored s
    → Lacks b'=' key
    → Lacks b';' key
    → HasAt key value (stored_row s) i
    → is_found (strstr (row_text (stored_row s)) (key ++ b'=' ∷ [])) ≡ true
field_found s key value i h equals semi at =
    is_found-row_text key value (stored_row s) i equals semi (stored_row-IsPlain s h) at

field_read :
    (s : StoredUser) (key value : Bytes) (width most i : ℕ)
    → IsStored s
    → Lacks b'=' key
    → Lacks b';' key
    → HasAt key value (stored_row s) i
    → IsValue most value
    → most ≤ width
    → scan_field (key ++ b'=' ∷ []) width (row_text (stored_row s)) ≡ ok value
field_read s key value width most i h equals semi at (filled, value_equals, value_semi, fits) wide =
    scan_field-row_text key value (stored_row s) width i equals semi (stored_row-IsPlain s h) at
      filled value_semi (omega arith)

-- Where the keys stand in the row.
id_at : (s : StoredUser) → HasAt (codes "id") s.id (stored_row s) 0
unfolding skips strstr starts_with
id_at s = (refl, refl)

name_at : (s : StoredUser) → HasAt (codes "name") s.name (stored_row s) 1
unfolding skips strstr starts_with
name_at s = (refl, refl)

cpf_at : (s : StoredUser) → HasAt (codes "cpf") s.cpf (stored_row s) 2
unfolding skips strstr starts_with
cpf_at s = (refl, refl)

password_at : (s : StoredUser) → HasAt (codes "password") s.password (stored_row s) 4
unfolding skips strstr starts_with
password_at s = (refl, refl)

is_active_at : (s : StoredUser) → HasAt (codes "is_active") (codes "true") (stored_row s) 5
unfolding skips strstr starts_with
is_active_at s = (refl, refl)

created_at_at : (s : StoredUser) → HasAt (codes "created_at") s.created_at (stored_row s) 6
unfolding skips strstr starts_with
created_at_at s = (refl, refl)

updated_at_at : (s : StoredUser) → HasAt (codes "updated_at") (codes "NULL") (stored_row s) 7
unfolding skips strstr starts_with
updated_at_at s = (refl, refl)

stored_row-has_fields :
    (s : StoredUser) → IsStored s → has_fields user_keys (row_text (stored_row s)) ≡ true
unfolding has_fields
stored_row-has_fields s h =
    rw
      (
        field_found s (codes "id") s.id 0 h (omega arith) (omega arith) (id_at s),
        field_found s (codes "name") s.name 1 h (omega arith) (omega arith) (name_at s),
        field_found s (codes "cpf") s.cpf 2 h (omega arith) (omega arith) (cpf_at s),
        field_found s (codes "password") s.password 4 h (omega arith) (omega arith) (password_at s),
        field_found s (codes "is_active") (codes "true") 5 h (omega arith) (omega arith)
            (is_active_at s),
        field_found s (codes "created_at") s.created_at 6 h (omega arith) (omega arith)
            (created_at_at s),
        field_found s (codes "updated_at") (codes "NULL") 7 h (omega arith) (omega arith)
            (updated_at_at s),
      )
      refl

strcpy_fits : (size : ℕ) (s : Bytes) → length s < size → strcpy size s ≡ ok s
unfolding strcpy
strcpy_fits size s h = ground arith

scan_user-stored_row :
    (s : StoredUser) → IsStored s → scan_user (row_text (stored_row s)) ≡ ok (mounted s)
unfolding scan_user
scan_user-stored_row s h =
    let (id, name, cpf, email, password, created) = h in
    rw
      (
        field_read s (codes "id") s.id 19 19 0 h (omega arith) (omega arith) (id_at s) id
            (omega arith),
        field_read s (codes "name") s.name 255 49 1 h (omega arith) (omega arith) (name_at s) name
            (omega arith),
        field_read s (codes "cpf") s.cpf 19 11 2 h (omega arith) (omega arith) (cpf_at s) cpf
            (omega arith),
        field_read s (codes "password") s.password 255 34 4 h (omega arith) (omega arith)
            (password_at s) password (omega arith),
        scan_int_field-row_text (codes "is_active") (codes "true") (stored_row s) 5 (omega arith)
            (omega arith) (stored_row-IsPlain s h) (is_active_at s),
        field_read s (codes "created_at") s.created_at 19 19 6 h (omega arith) (omega arith)
            (created_at_at s) created (omega arith),
        field_read s (codes "updated_at") (codes "NULL") 19 4 7 h (omega arith) (omega arith)
            (updated_at_at s) (λ e. cc, omega arith, omega arith, omega arith) (omega arith),
        strcpy_fits name_max s.name (omega (arith, name.3)),
        strcpy_fits cpf_digits s.cpf (omega (arith, cpf.3)),
        strcpy_fits pwd_max s.password (omega (arith, password.3)),
      )
      (unfold tail_text atol to_int mounted in refl)

-- The text of a stored user's row, in which each value has a byte, no separator and no more bytes
-- than its array holds, is read back as the user, with no e-mail and not active.
pub mount_user_from_line_buf-stored_row :
    (s : StoredUser)
    → IsStored s
    → mount_user_from_line_buf (row_text (stored_row s)) ≡ ok (mounted s)
unfolding mount_user_from_line_buf
mount_user_from_line_buf-stored_row s h = rw (stored_row-has_fields s h) (scan_user-stored_row s h)
