-- ===== src/Data/Accounts.antt =====
-- data/acc_store.c: a stored line as an account, and the search for an account.
use cbank_system.Prelude.{true, false, List, [], ◌∷◌, ◌++◌, length, take, ◌==◌, if◌then◌else◌}
use cbank_system.Prelude.Ret.{Ret, ok, ◌>>=◌}
use cbank_system.Text.{Bytes, codes}
use cbank_system.Orm.Files.{Files}
use cbank_system.Orm.Filtering.{Doubles}
use cbank_system.Orm.Select.{db_account_section, new_select_query, qselect_all_from, qwhere}
use cbank_system.Orm.Select.Scan.{ResultSet, select_executor, full_line}
use cbank_system.Data.Models.{Account, GetAccountByFieldResponse}
use cbank_system.Data.Fields.{has_fields, scan_field, behind}

abbrev pub account_keys : List Bytes
account_keys =
    codes "id="
    ∷ codes "user_id_fk="
    ∷ codes "balance="
    ∷ codes "created_at="
    ∷ codes "updated_at="
    ∷ []

-- An account of zero bytes; `atof` of no text is 0.0.
abbrev pub no_account : (d : Doubles) → Account d.Double
no_account d = record {
  id = [];
  user_id_fk = [];
  balance = d.atof [];
  created_at = [];
  updated_at = [];
}

-- `%lf` reads the balance as `atof` does.
unfoldable pub scan_account : (d : Doubles) → Bytes → Ret (Account d.Double)
scan_account d line_buf = do
  id ← scan_field (codes "id=") 19 line_buf
  user_id_fk ← scan_field (codes "user_id_fk=") 19 line_buf
  balance ← behind (codes "balance=") line_buf
  created_at ← scan_field (codes "created_at=") 19 line_buf
  updated_at ← scan_field (codes "updated_at=") 19 line_buf
  ok (record {
    id = id;
    user_id_fk = user_id_fk;
    balance = d.atof balance;
    created_at = created_at;
    updated_at = updated_at;
  })

-- A line without one of the keys gives an account of zero bytes.
unfoldable pub mount_acc_from_line_buf : (d : Doubles) → Bytes → Ret (Account d.Double)
unfolding scan_account
mount_acc_from_line_buf d line_buf =
    if has_fields account_keys line_buf then scan_account d line_buf else ok (no_account d)

-- The line of an account, cut to 255 bytes; `print` is `%.2lf`.
unfoldable pub acc_to_line_buf : (d : Doubles) → (d.Double → Bytes) → Account d.Double → Bytes
acc_to_line_buf d print acc = take 255 (
    codes "id="
    ++ (acc.id
        ++ (codes ";user_id_fk="
            ++ (acc.user_id_fk
                ++ (codes ";balance="
                    ++ (print acc.balance
                        ++ (codes ";created_at="
                            ++ (acc.created_at
                                ++ (codes ";updated_at=" ++ (acc.updated_at ++ 10 ∷ []))))))))))

-- The first row of a result, through a buffer of 1024 bytes.
unfoldable pub first_account : (d : Doubles) → ResultSet → Ret (GetAccountByFieldResponse d.Double)
unfolding mount_acc_from_line_buf
first_account d result =
    if length result.rows_data == 0
    then ok (record { account = no_account d; success = false })
    else (full_line result 0 1024
        >>= mount_acc_from_line_buf d
        >>= (λ account. ok (record { account = account; success = true })))

unfoldable pub get_account_by_field :
    (d : Doubles) → Files → Bytes → Bytes → Ret (GetAccountByFieldResponse d.Double)
unfolding first_account
get_account_by_field d files field value = do
  q ← qselect_all_from new_select_query db_account_section
  result ← select_executor d (qwhere q field (codes "=") value) files
  first_account d result

unfoldable pub get_account_by_user_id :
    (d : Doubles) → Files → Bytes → Ret (GetAccountByFieldResponse d.Double)
unfolding get_account_by_field
get_account_by_user_id d files user_id = get_account_by_field d files (codes "user_id_fk") user_id
