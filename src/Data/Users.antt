-- ===== src/Data/Users.antt =====
-- data/user_store.c: a stored line as a user, and the search for a user.
pub mod Mount
pub mod Find
use cbank_system.Prelude.{true, false, not, List, [], ◌∷◌, length, ◌==◌, if◌then◌else◌}
use cbank_system.Prelude.Ret.{Ret, ok, ◌>>=◌}
use cbank_system.Prelude.Int.{is_zero}
use cbank_system.Text.{Bytes, codes}
use cbank_system.Orm.Files.{Files}
use cbank_system.Orm.Filtering.{Doubles}
use cbank_system.Orm.Select.{db_user_section, new_select_query, qselect_all_from, qwhere}
use cbank_system.Orm.Select.Scan.{ResultSet, select_executor, full_line}
use cbank_system.Data.Models.{
  BankUser, no_user, name_max, pwd_max, cpf_digits, id_size, GetUserByFieldResponse,
}
use cbank_system.Data.Fields.{has_fields, scan_field, scan_int_field, strcpy}

abbrev pub user_keys : List Bytes
user_keys =
    codes "id="
    ∷ codes "name="
    ∷ codes "cpf="
    ∷ codes "password="
    ∷ codes "is_active="
    ∷ codes "created_at="
    ∷ codes "updated_at="
    ∷ []

-- The scans and copies; the e-mail is not read.
unfoldable pub scan_user : Bytes → Ret BankUser
scan_user line_buf = do
  id ← scan_field (codes "id=") 19 line_buf
  name ← scan_field (codes "name=") 255 line_buf
  cpf ← scan_field (codes "cpf=") 19 line_buf
  pwd ← scan_field (codes "password=") 255 line_buf
  is_active ← scan_int_field (codes "is_active=") line_buf
  created_at ← scan_field (codes "created_at=") 19 line_buf
  updated_at ← scan_field (codes "updated_at=") 19 line_buf
  name' ← strcpy name_max name
  cpf' ← strcpy cpf_digits cpf
  pwd' ← strcpy pwd_max pwd
  ok (record {
    id = id;
    name = name';
    cpf = cpf';
    email = [];
    password = pwd';
    is_active = not (is_zero is_active);
    created_at = created_at;
    updated_at = updated_at;
  })

-- A line without one of the keys gives a user of zero bytes.
unfoldable pub mount_user_from_line_buf : Bytes → Ret BankUser
unfolding scan_user
mount_user_from_line_buf line_buf =
    if has_fields user_keys line_buf then scan_user line_buf else ok no_user

-- The first row of a result, through a buffer of 1024 bytes.
unfoldable pub first_user : ResultSet → Ret GetUserByFieldResponse
unfolding mount_user_from_line_buf
first_user result =
    if length result.rows_data == 0
    then ok (record { user = no_user; success = false })
    else (full_line result 0 1024
        >>= mount_user_from_line_buf
        >>= (λ user. ok (record { user = user; success = true })))

unfoldable pub get_user_by_field : Doubles → Files → Bytes → Bytes → Ret GetUserByFieldResponse
unfolding first_user
get_user_by_field d files field value = do
  q ← qselect_all_from new_select_query db_user_section
  result ← select_executor d (qwhere q field (codes "=") value) files
  first_user result

unfoldable pub get_user_by_cpf : Doubles → Files → Bytes → Ret GetUserByFieldResponse
unfolding get_user_by_field
get_user_by_cpf d files cpf = get_user_by_field d files (codes "cpf") cpf

unfoldable pub get_user_by_id : Doubles → Files → Bytes → Ret GetUserByFieldResponse
unfolding get_user_by_field
get_user_by_id d files id = get_user_by_field d files (codes "id") id
