-- ===== src/Core/Users/Register.antt =====
-- core/user.c: a registration, and the login behind it.
use cbank_system.Prelude.{
  ℕ, ◌≤◌, ◌≡◌, ◌≢◌, refl, ap, true, List, [], ◌∷◌, ◌++◌, map, some, length, All, All-append, arith,
}
use cbank_system.Prelude.Ret.{ok, ◌>>=◌}
use cbank_system.Text.{Bytes, codes, bytes_eq, bytes_eq_refl, bytes_eq_ne, tokens, print_nat}
use cbank_system.Orm.Files.{Files, put_file, contents_of}
use cbank_system.Orm.Filtering.{Doubles, compare}
use cbank_system.Orm.Insert.{new_insert_query, insert_query_into, set_for_insert}
use cbank_system.Orm.Select.{SelectQuery, db_user_section, new_select_query, qselect, qfrom, qwhere}
use cbank_system.Orm.Select.Scan.{
  keep_columns, keep_column, pairs_pass, clause_allows, select_executor,
}
use cbank_system.Orm.Table.{Row, table_text, passed_rows, result_of}
use cbank_system.Orm.Table.Refine.{select_executor-passed_rows}
use cbank_system.Orm.Table.Append.{equals, insert_query_executor-table_text}
use cbank_system.Data.Users.Mount.{
  StoredUser, stored_row, mounted, mount_user_from_line_buf-stored_row,
}
use cbank_system.Data.Users.Find.{
  IsUser, rows-IsRow, full_line-rows, rows-Fits, find_user, users_of,
}
use cbank_system.Data.Identity.{db_id_tracker_section}
use cbank_system.Data.Identity.Tracker.{Identity, IsIdentity, tracker_text}
use cbank_system.Data.Identity.Update.{bump, updt_next_identity-tracker_text}
use cbank_system.Data.Identity.Query.{entries_of, first_identity}
use cbank_system.Core.Auth.{Crypt, pwd_hash_salt, hash_str}
use cbank_system.Utils.{get_fmt_now}
use cbank_system.Core.Accounts.{make_new_account}
use cbank_system.Core.Accounts.New.{with_account}
use cbank_system.Core.Users.{CreateUserDto, StackReads, user_row, store_new_user}

-- The user that a registration stores.
abbrev pub new_user : Bytes → Bytes → ℕ → CreateUserDto → StoredUser
new_user now hash n payload = record {
  id = print_nat n;
  name = payload.name;
  cpf = payload.cpf;
  email = payload.email;
  password = hash;
  created_at = now;
}

user_row-stored_row :
    (now hash : Bytes) (n : ℕ) (payload : CreateUserDto)
    → user_row now (print_nat n) hash payload
      ≡ record { table = db_user_section; insert_pair = stored_row (new_user now hash n payload) }
unfolding user_row set_for_insert insert_query_into new_insert_query
user_row-stored_row now hash n payload = refl

abbrev id_query : Bytes → SelectQuery
id_query id = record {
  table = db_user_section;
  columns =
      codes "id"
      ∷ codes "name"
      ∷ codes "cpf"
      ∷ codes "password"
      ∷ codes "email"
      ∷ codes "is_active"
      ∷ codes "created_at"
      ∷ codes "updated_at"
      ∷ [];
  conditions = equals (codes "id") id ∷ [];
}

qselect-id :
    qselect new_select_query (codes "id,name,cpf,password,email,is_active,created_at,updated_at")
    ≡ ok (record { table = []; columns = (id_query []).columns; conditions = [] })
unfolding qselect new_select_query tokens
qselect-id = refl

pairs_pass-id :
    (d : Doubles) (id : Bytes) (s : StoredUser)
    → pairs_pass d (equals (codes "id") id ∷ []) (stored_row s) ≡ bytes_eq s.id id
unfolding pairs_pass clause_allows compare bytes_eq
pairs_pass-id d id s = ground arith

keep_columns-id :
    (id : Bytes) (s : StoredUser) → keep_columns (id_query id).columns (stored_row s) ≡ stored_row s
unfolding keep_columns keep_column bytes_eq
keep_columns-id id s = refl

-- Only the new user has the new identity.
passed_rows-id :
    (d : Doubles) (s : StoredUser) (users : List StoredUser)
    → All (λ (u : StoredUser). s.id ≢ u.id) users
    → passed_rows d (id_query s.id) (map stored_row (users ++ s ∷ [])) ≡ map stored_row (s ∷ [])
unfolding passed_rows
passed_rows-id d s [] h =
    rw (pairs_pass-id d s.id s, bytes_eq_refl s.id, keep_columns-id s.id s) refl
passed_rows-id d s (u ∷ users) (hu, h) =
    rw (pairs_pass-id d s.id u, bytes_eq_ne u.id s.id hu) (passed_rows-id d s users h)

map-snoc :
    (users : List StoredUser) (s : StoredUser)
    → map stored_row (users ++ s ∷ []) ≡ map stored_row users ++ stored_row s ∷ []
map-snoc [] s = refl
map-snoc (u ∷ users) s = ap (λ rows. stored_row u ∷ rows) (map-snoc users s)

pub find_user-snoc :
    (s : StoredUser) (users : List StoredUser)
    → All (λ (u : StoredUser). s.cpf ≢ u.cpf) users
    → (find_user s.cpf (users ++ s ∷ []) ≡ some s) × (users_of s.cpf (users ++ s ∷ []) ≡ s ∷ [])
unfolding find_user users_of
find_user-snoc s [] h = rw (bytes_eq_refl s.cpf) (refl, refl)
find_user-snoc s (u ∷ users) (hu, h) = rw (bytes_eq_ne u.cpf s.cpf hu) (find_user-snoc s users h)

-- Reading the new user back from the table.
read_back :
    (d : Doubles) (files : Files) (s : StoredUser) (users : List StoredUser)
    → files db_user_section ≡ some (table_text (map stored_row (users ++ s ∷ [])))
    → All IsUser users
    → IsUser s
    → All (λ (u : StoredUser). s.id ≢ u.id) users
    → select_executor d (id_query s.id) files ≡ ok (result_of (map stored_row (s ∷ [])))
read_back d files s users at h is_user fresh =
    let found = passed_rows-id d s users fresh in
    let run =
      select_executor-passed_rows d (id_query s.id) files (map stored_row (users ++ s ∷ [])) at
        (rows-IsRow (users ++ s ∷ []) (All-append IsUser users (s ∷ []) h (is_user, tt)))
        (rw found (rows-Fits (s ∷ []) (omega arith))) in
    rw found at run

-- The files behind the insertion of a user and the count of its identity.
unfoldable pub with_user : Files → List StoredUser → StoredUser → List Identity → Files
with_user files users s entries =
    let inserted = put_file files db_user_section (table_text (map stored_row (users ++ s ∷ []))) in
    put_file inserted db_id_tracker_section (tracker_text (map (bump db_user_section) entries))

pub with_user_table :
    (files : Files) (users : List StoredUser) (s : StoredUser) (entries : List Identity)
    → with_user files users s entries db_user_section
      ≡ some (table_text (map stored_row (users ++ s ∷ [])))
unfolding with_user bytes_eq
with_user_table files users s entries = refl

-- Neither file is touched by the account that follows.
pub with_account_table :
    (files : Files) (now user_id : Bytes) (n : ℕ) (accounts : List Row) (entries : List Identity)
    → with_account files now user_id n accounts entries db_user_section ≡ files db_user_section
unfolding with_account bytes_eq
with_account_table files now user_id n accounts entries = refl

-- The steps up to the account.
pub store_new_user-with_user :
    (d : Doubles) (crypt : Crypt) (stacks : StackReads) (now hash : Bytes) (files : Files)
    (payload : CreateUserDto) (users : List StoredUser) (entries more : List Identity)
    (e : Identity)
    → get_fmt_now stacks.of_user ≡ ok now
    → files db_user_section ≡ some (table_text (map stored_row users))
    → All IsUser users
    → files db_id_tracker_section ≡ some (tracker_text entries)
    → All IsIdentity entries
    → IsIdentity e
    → length (entries_of db_user_section entries) ≤ 100
    → entries_of db_user_section entries ≡ e ∷ more
    → crypt payload.password pwd_hash_salt ≡ some hash
    → IsUser (new_user now hash e.cur_id payload)
    → All (λ (u : StoredUser). print_nat e.cur_id ≢ u.id) users
    → store_new_user d crypt stacks files payload ≡ (
        make_new_account d stacks.of_account
          (with_user files users (new_user now hash e.cur_id payload) entries)
          (mounted (new_user now hash e.cur_id payload))
        >>= (λ (r : Files × _). ok (
          r.0,
          record {
            user = mounted (new_user now hash e.cur_id payload);
            success = true;
            message = codes "User created";
          },
        )))
unfolding store_new_user hash_str qfrom qwhere with_user
store_new_user-with_user d crypt stacks now hash files payload users entries more e read at h
      tracker he is_e few first hashed is_user fresh =
    let s = new_user now hash e.cur_id payload in
    let inserted = put_file files db_user_section (table_text (map stored_row (users ++ s ∷ []))) in
    let insert =
      insert_query_executor-table_text db_user_section (stored_row s) files (map stored_row users)
        (λ f. cc) (rw (at, contents_of) refl) in
    let update =
      updt_next_identity-tracker_text inserted db_user_section entries
        (unfold bytes_eq in rw (tracker, contents_of) refl) he in
    let back =
      read_back d (with_user files users s entries) s users (with_user_table files users s entries)
        h is_user fresh in
    rw
      (
        store_new_user,
        hash_str,
        hashed,
        first_identity d files db_user_section entries more e tracker he is_e few first,
        read,
        user_row-stored_row now hash e.cur_id payload,
        insert,
        ← map-snoc users s,
        update,
        qselect-id,
        back,
        full_line-rows s [] is_user.0,
        mount_user_from_line_buf-stored_row s is_user.0,
      )
      refl
