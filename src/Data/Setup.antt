-- ===== src/Data/Setup.antt =====
-- data/id_tracker_store.c, and the set-up in data/store.c.
-- A store is a file, which `db_instance` makes where there is none; the streams are its contents.
pub mod Fresh
use cbank_system.Prelude.{Bool, true, false, List, [], ◌∷◌, ◌++◌, if◌then◌else◌}
use cbank_system.Prelude.Ret.{Ret, ok, ◌>>=◌}
use cbank_system.Text.{Bytes, codes, bytes_eq, strcspn_cut, fgets_lines}
use cbank_system.Orm.Files.{Files, put_file, contents_of, append_file}
use cbank_system.Orm.Select.{db_user_section, db_account_section}
use cbank_system.Data.Fields.{has_fields, scan_field}
use cbank_system.Data.Identity.{db_id_tracker_section, store_key}

abbrev pub db_transaction_section : Bytes
db_transaction_section = codes "./stores/transaction_db"

-- `fopen(f, "a+")`
abbrev pub db_instance : Files → Bytes → Files
db_instance files f = put_file files f (contents_of files f)

-- The loop of `id_tracker_has_store`, which ends at the first line of the store.
unfoldable pub has_store : Bytes → List Bytes → Ret Bool
has_store store_name [] = ok false
has_store store_name (piece ∷ pieces) =
    let later = has_store store_name pieces in
    let line_buf = strcspn_cut 10 piece in
    if has_fields (store_key ∷ []) line_buf
    then (scan_field store_key 49 line_buf
        >>= (λ name. if bytes_eq name store_name then ok true else later))
    else later

unfoldable pub id_tracker_has_store : Files → Bytes → Ret Bool
unfolding has_store
id_tracker_has_store files store_name =
    has_store store_name (fgets_lines 255 (contents_of files db_id_tracker_section))

unfoldable pub initialize_id_tracker_if_needed : Files → Bytes → Ret Files
unfolding id_tracker_has_store
initialize_id_tracker_if_needed files store_name = do
  found ← id_tracker_has_store files store_name
  ok (
      if found
      then files
      else append_file files db_id_tracker_section
          (store_key ++ (store_name ++ (codes ";cur_id=0" ++ 10 ∷ []))))

-- The files that every start makes, and the three identities.
unfoldable pub setup_stores : Files → Ret Files
unfolding initialize_id_tracker_if_needed
setup_stores files = do
  let tracker = db_instance files db_id_tracker_section
  let users = db_instance tracker db_user_section
  let accounts = db_instance users db_account_section
  let transactions = db_instance accounts db_transaction_section
  with_user ← initialize_id_tracker_if_needed transactions db_user_section
  with_transaction ← initialize_id_tracker_if_needed with_user db_transaction_section
  initialize_id_tracker_if_needed with_transaction db_account_section
