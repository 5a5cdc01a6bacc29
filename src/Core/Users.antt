-- ===== src/Core/Users.antt =====
-- core/user.c: a new user with an account.
pub mod Email
pub mod Register
pub mod Session
mod Tests
use cbank_system.Prelude.{ℕ, List, Option, Bool, true, false, length, ltb}
use cbank_system.Prelude.Ret.{Ret, ok, ◌>>=◌}
use cbank_system.Text.{Bytes, codes}
use cbank_system.Orm.Files.{Files}
use cbank_system.Orm.Filtering.{Doubles}
use cbank_system.Orm.Insert.{
  InsertQuery, new_insert_query, insert_query_into, set_for_insert, insert_query_executor,
}
use cbank_system.Orm.Select.{db_user_section, new_select_query, qselect, qfrom, qwhere}
use cbank_system.Orm.Select.Scan.{select_executor, full_line}
use cbank_system.Data.Models.{BankUser, no_user, name_max, pwd_max, cpf_digits}
use cbank_system.Data.Fields.{strcpy}
use cbank_system.Data.Users.{mount_user_from_line_buf}
use cbank_system.Data.Identity.{get_next_identity, updt_next_identity}
use cbank_system.Core.Auth.{Crypt, hash_str, pwd_hash_salt}
use cbank_system.Utils.{get_fmt_now}
use cbank_system.Core.Accounts.{make_new_account}

-- api/schemas and api/dtos: a registration as it was read, in wider arrays, and as it is stored.
pub record RegisterAccountSchema : Type 0 where
  pub name : Bytes
  pub email : Bytes
  pub cpf : Bytes
  pub password : Bytes

pub record CreateUserDto : Type 0 where
  pub name : Bytes
  pub email : Bytes
  pub cpf : Bytes
  pub password : Bytes

unfoldable pub user_dto_from_register_acc_schema : RegisterAccountSchema → Ret CreateUserDto
user_dto_from_register_acc_schema schema = do
  cpf ← strcpy cpf_digits schema.cpf
  name ← strcpy name_max schema.name
  password ← strcpy pwd_max schema.password
  email ← strcpy name_max schema.email
  ok (record { name = name; email = email; cpf = cpf; password = password })

-- `result->rows` is read behind `result->free`, which leaves the struct itself alone.
unfoldable pub email_already_registered : Doubles → Files → Bytes → Ret Bool
email_already_registered d files email = do
  q ← qselect new_select_query (codes "email")
  result ←
      select_executor d (qwhere (qfrom q db_user_section) (codes "email") (codes "=") email) files
  ok (ltb 0 (length result.rows_data))

pub record MakeNewUserResponse : Type 0 where
  pub user : BankUser
  pub success : Bool
  pub message : Bytes

-- The insertion of a user's row. `now` is what is read through the pointer of `get_fmt_now`.
unfoldable pub user_row : Bytes → Bytes → Bytes → CreateUserDto → InsertQuery
user_row now id hash payload =
    let into = insert_query_into new_insert_query db_user_section in
    let with_id = set_for_insert into (codes "id") id in
    let with_name = set_for_insert with_id (codes "name") payload.name in
    let with_cpf = set_for_insert with_name (codes "cpf") payload.cpf in
    let with_email = set_for_insert with_cpf (codes "email") payload.email in
    let with_password = set_for_insert with_email (codes "password") hash in
    let with_active = set_for_insert with_password (codes "is_active") (codes "true") in
    let with_created = set_for_insert with_active (codes "created_at") now in
    set_for_insert with_created (codes "updated_at") (codes "NULL")

-- What the stack holds where the two calls of `get_fmt_now` leave a pointer to it.
pub record StackReads : Type 0 where
  pub of_user : Option (List ℕ)
  pub of_account : Option (List ℕ)

-- The user is inserted, its identity counted up, and it is read back for its account.
unfoldable pub store_new_user :
    Doubles → Crypt → StackReads → Files → CreateUserDto → Ret (Files × MakeNewUserResponse)
unfolding user_row
store_new_user d crypt stacks files payload = do
  hash ← hash_str crypt payload.password pwd_hash_salt
  next_id ← get_next_identity d files db_user_section 50
  now ← get_fmt_now stacks.of_user
  let (code, inserted) = insert_query_executor (user_row now next_id hash payload) files
  updated ← updt_next_identity inserted db_user_section
  q ← qselect new_select_query (codes "id,name,cpf,password,email,is_active,created_at,updated_at")
  result ←
      select_executor d (qwhere (qfrom q db_user_section) (codes "id") (codes "=") next_id) updated
  buf ← full_line result 0 1024
  user ← mount_user_from_line_buf buf
  (files', account) ← make_new_account d stacks.of_account updated user
  ok (files', record { user = user; success = true; message = codes "User created" })

abbrev pub email_exists : Bytes
email_exists = codes "Could not create user. Email already exists"

unfoldable pub make_new_user :
    Doubles → Crypt → StackReads → Files → CreateUserDto → Ret (Files × MakeNewUserResponse)
unfolding email_already_registered store_new_user
make_new_user d crypt stacks files payload = do
  exists ← email_already_registered d files payload.email
  elim exists [
    | true ↦ ok (files, record { user = no_user; success = false; message = email_exists })
    | false ↦ store_new_user d crypt stacks files payload
  ]
