-- ===== src/Data/Setup/Fresh.antt =====
-- data/store.c and data/id_tracker_store.c: the first start, on a disk without stores.
use cbank_system.Prelude.{◌≡◌, refl, ap, ◌∙◌, false, List, [], ◌∷◌, ◌++◌, none, some}
use cbank_system.Prelude.Ret.{ok}
use cbank_system.Text.{
  Bytes, codes, bytes_eq, bytes_eq_refl, strstr, starts_with, take_while, strcspn_cut, fgets_lines,
  print_nat,
}
use cbank_system.Orm.Files.{Files, put_file, contents_of}
use cbank_system.Orm.Insert.{row_text}
use cbank_system.Orm.Select.{db_user_section, db_account_section}
use cbank_system.Data.Fields.{has_fields, scan_field, scan_set, non_empty, behind}
use cbank_system.Data.Identity.{db_id_tracker_section, store_key}
use cbank_system.Data.Identity.Tracker.{Identity, tracker_text}
use cbank_system.Data.Setup.{
  db_transaction_section, db_instance, has_store, id_tracker_has_store,
  initialize_id_tracker_if_needed, setup_stores,
}

-- The entry of a store that was not yet used.
abbrev pub unused : Bytes → Identity
unused name = record { name = name; cur_id = 0; closed = false }

abbrev pub first_tracker : List Identity
first_tracker =
    unused db_user_section ∷ unused db_transaction_section ∷ unused db_account_section ∷ []

abbrev new_line : Bytes → Bytes
new_line store_name = store_key ++ (store_name ++ (codes ";cur_id=0" ++ 10 ∷ []))

-- A store that the tracker lacks gets a line.
initialize-absent :
    (files : Files) (store_name text : Bytes)
    → files db_id_tracker_section ≡ some text
    → has_store store_name (fgets_lines 255 text) ≡ ok false
    → initialize_id_tracker_if_needed files store_name
      ≡ ok (put_file files db_id_tracker_section (text ++ new_line store_name))
unfolding initialize_id_tracker_if_needed id_tracker_has_store
initialize-absent files store_name text at absent = rw (at, contents_of, absent) refl

tracker_at :
    (files : Files) (text : Bytes)
    → put_file files db_id_tracker_section text db_id_tracker_section ≡ some text
tracker_at files text = rw (bytes_eq_refl db_id_tracker_section) refl

transaction-absent :
    has_store db_transaction_section (fgets_lines 255 (new_line db_user_section)) ≡ ok false
unfolding has_store has_fields scan_field scan_set non_empty behind strstr starts_with take_while
    strcspn_cut fgets_lines bytes_eq
transaction-absent = refl

account-absent :
    has_store db_account_section
      (fgets_lines 255 (new_line db_user_section ++ new_line db_transaction_section))
    ≡ ok false
unfolding has_store has_fields scan_field scan_set non_empty behind strstr starts_with take_while
    strcspn_cut fgets_lines bytes_eq
account-absent = refl

user-absent : has_store db_user_section (fgets_lines 255 []) ≡ ok false
unfolding has_store fgets_lines
user-absent = refl

-- The four stores, opened.
opened_stores : Files → Files
opened_stores files =
    let tracker = db_instance files db_id_tracker_section in
    let users = db_instance tracker db_user_section in
    let accounts = db_instance users db_account_section in
    db_instance accounts db_transaction_section

opened_stores_at :
    (files : Files)
    → files db_id_tracker_section ≡ none
    → files db_user_section ≡ none
    → files db_account_section ≡ none
    → (opened_stores files db_id_tracker_section ≡ some [])
      × (opened_stores files db_user_section ≡ some [])
      × (opened_stores files db_account_section ≡ some [])
unfolding opened_stores bytes_eq
opened_stores_at files tracker users accounts =
    (rw (tracker, contents_of) refl, rw (users, contents_of) refl, rw (accounts, contents_of) refl)

-- A write to the tracker leaves the tables alone.
tracker_elsewhere :
    (files : Files) (text : Bytes)
    → (put_file files db_id_tracker_section text db_user_section ≡ files db_user_section)
      × (put_file files db_id_tracker_section text db_account_section ≡ files db_account_section)
unfolding bytes_eq
tracker_elsewhere files text = (refl, refl)

first_tracker_text :
    (new_line db_user_section ++ new_line db_transaction_section) ++ new_line db_account_section
    ≡ tracker_text first_tracker
unfolding tracker_text row_text print_nat
first_tracker_text = refl

-- On a disk without the stores, the set-up makes them: no user, no account, and a tracker with the
-- three stores, each at zero.
pub setup_stores-fresh :
    (files : Files)
    → files db_id_tracker_section ≡ none
    → files db_user_section ≡ none
    → files db_account_section ≡ none
    → (files' : Files) × (setup_stores files ≡ ok files')
      × (files' db_id_tracker_section ≡ some (tracker_text first_tracker))
      × (files' db_user_section ≡ some [])
      × (files' db_account_section ≡ some [])
unfolding setup_stores opened_stores
setup_stores-fresh files tracker users accounts =
    let o = opened_stores files in
    let (o_tracker, o_users, o_accounts) = opened_stores_at files tracker users accounts in
    let one = new_line db_user_section in
    let two = one ++ new_line db_transaction_section in
    let three = two ++ new_line db_account_section in
    let f1 = put_file o db_id_tracker_section one in
    let f2 = put_file f1 db_id_tracker_section two in
    let f3 = put_file f2 db_id_tracker_section three in
    (
      f3,
      rw
          (
            initialize-absent o db_user_section [] o_tracker user-absent,
            initialize-absent f1 db_transaction_section one (tracker_at o one) transaction-absent,
            initialize-absent f2 db_account_section two (tracker_at f1 two) account-absent,
          )
          refl,
      tracker_at f2 three ∙ ap some first_tracker_text,
      (tracker_elsewhere f2 three).0
          ∙ (tracker_elsewhere f1 two).0
          ∙ (tracker_elsewhere o one).0
          ∙ o_users,
      (tracker_elsewhere f2 three).1
          ∙ (tracker_elsewhere f1 two).1
          ∙ (tracker_elsewhere o one).1
          ∙ o_accounts,
    )
