-- ===== src/Core/Accounts.antt =====
-- core/acc.c: the list of all accounts, and a new account. Blocks are taken to be granted.
pub mod New
use cbank_system.Prelude.{ℕ, zero, suc, ◌+◌, List, [], ◌∷◌, ◌++◌, Option, length}
use cbank_system.Prelude.Ret.{Ret, ok, null, fault, ◌>>=◌}
use cbank_system.Text.{Bytes, codes}
use cbank_system.Orm.Files.{Files}
use cbank_system.Orm.Filtering.{Doubles}
use cbank_system.Orm.Insert.{
  InsertQuery, new_insert_query, insert_query_into, set_for_insert, insert_query_executor,
}
use cbank_system.Orm.Select.{db_account_section, new_select_query, qselect_all_from, qfrom, qwhere}
use cbank_system.Orm.Select.Scan.{ResultSet, select_executor, full_line, get_line_from_resultset}
use cbank_system.Utils.{get_fmt_now}
use cbank_system.Data.Models.{BankUser, Account}
use cbank_system.Data.Accounts.{no_account, mount_acc_from_line_buf}
use cbank_system.Data.Identity.{get_next_identity, updt_next_identity}

-- `accounts` is the array of as many entries as there are rows, `item_count` how many count.
pub record ListAccountsResponse (Double : Type 0) : Type 0 where
  pub accounts : List (Account Double)
  pub item_count : ℕ

-- One round of the loop. A row without a line leaves its entry zero, and is not counted.
unfoldable pub list_account :
    (d : Doubles) → Ret Bytes → ListAccountsResponse d.Double → Ret (ListAccountsResponse d.Double)
list_account d fault list = fault
list_account d null list =
    ok (record { accounts = list.accounts ++ no_account d ∷ []; item_count = list.item_count })
list_account d (ok line) list = do
  acc ← mount_acc_from_line_buf d line
  ok (record { accounts = list.accounts ++ acc ∷ []; item_count = list.item_count + 1 })

-- The loop from row `i` on, with `left` rows to go.
unfoldable pub list_loop :
    (d : Doubles)
    → ResultSet
    → ℕ
    → ℕ
    → ListAccountsResponse d.Double
    → Ret (ListAccountsResponse d.Double)
unfolding list_account
list_loop d result zero i list = ok list
list_loop d result (suc left) i list = do
  list' ← list_account d (get_line_from_resultset result i) list
  list_loop d result left (i + 1) list'

unfoldable pub list_accounts : (d : Doubles) → Files → Ret (ListAccountsResponse d.Double)
unfolding list_loop
list_accounts d files = do
  q ← qselect_all_from new_select_query db_account_section
  result ← select_executor d q files
  list_loop d result (length result.rows_data) 0 (record { accounts = []; item_count = 0 })

-- The insertion of an account's row. `now` is what is read through the pointer of `get_fmt_now`.
unfoldable pub account_row : Bytes → Bytes → Bytes → InsertQuery
account_row now id user_id =
    let into = insert_query_into new_insert_query db_account_section in
    let with_id = set_for_insert into (codes "id") id in
    let with_user = set_for_insert with_id (codes "user_id_fk") user_id in
    let with_balance = set_for_insert with_user (codes "balance") (codes "0.000") in
    let with_created = set_for_insert with_balance (codes "created_at") now in
    set_for_insert with_created (codes "updated_at") (codes "NULL")

-- The query for the new account asks for no column. `stack` is what `get_fmt_now` leaves to be read.
unfoldable pub make_new_account :
    (d : Doubles) → Option (List ℕ) → Files → BankUser → Ret (Files × Account d.Double)
unfolding account_row
make_new_account d stack files user = do
  next_id ← get_next_identity d files db_account_section 50
  now ← get_fmt_now stack
  let (code, inserted) = insert_query_executor (account_row now next_id user.id) files
  result ←
      select_executor d
        (qwhere (qfrom new_select_query db_account_section) (codes "id") (codes "=") next_id)
        inserted
  buf ← full_line result 0 1024
  account ← mount_acc_from_line_buf d buf
  updated ← updt_next_identity inserted db_account_section
  ok (updated, account)
