-- ===== src/Core/Users/Email.antt =====
-- core/user.c: an e-mail in a table of stored users.
use cbank_system.Prelude.{◌≡◌, ◌≢◌, refl, false, List, [], ◌∷◌, some, map, All, arith}
use cbank_system.Prelude.Ret.{ok}
use cbank_system.Text.{Bytes, codes, bytes_eq, bytes_eq_ne, tokens}
use cbank_system.Orm.Files.{Files}
use cbank_system.Orm.Filtering.{Doubles, compare}
use cbank_system.Orm.Select.{SelectQuery, db_user_section, new_select_query, qselect, qfrom, qwhere}
use cbank_system.Orm.Select.Scan.{pairs_pass, clause_allows}
use cbank_system.Orm.Table.{table_text, passed_rows, result_of}
use cbank_system.Orm.Table.Refine.{select_executor-passed_rows}
use cbank_system.Orm.Table.Append.{equals}
use cbank_system.Data.Users.Mount.{StoredUser, stored_row}
use cbank_system.Data.Users.Find.{IsUser, rows-IsRow}
use cbank_system.Core.Users.{email_already_registered}

abbrev email_query : Bytes → SelectQuery
email_query email = record {
  table = db_user_section;
  columns = codes "email" ∷ [];
  conditions = equals (codes "email") email ∷ [];
}

pairs_pass-email :
    (d : Doubles) (email : Bytes) (s : StoredUser)
    → pairs_pass d (equals (codes "email") email ∷ []) (stored_row s) ≡ bytes_eq s.email email
unfolding pairs_pass clause_allows compare bytes_eq
pairs_pass-email d email s = ground arith

passed_rows-email :
    (d : Doubles) (email : Bytes) (users : List StoredUser)
    → All (λ (s : StoredUser). email ≢ s.email) users
    → passed_rows d (email_query email) (map stored_row users) ≡ []
unfolding passed_rows
passed_rows-email d email [] h = refl
passed_rows-email d email (s ∷ users) (hs, h) =
    rw (pairs_pass-email d email s, bytes_eq_ne s.email email hs)
      (passed_rows-email d email users h)

qselect-email :
    qselect new_select_query (codes "email")
    ≡ ok (record { table = []; columns = codes "email" ∷ []; conditions = [] })
unfolding qselect new_select_query tokens
qselect-email = refl

-- An e-mail that no stored user has is not registered.
pub email_already_registered_absent :
    (d : Doubles) (files : Files) (email : Bytes) (users : List StoredUser)
    → files db_user_section ≡ some (table_text (map stored_row users))
    → All IsUser users
    → All (λ (s : StoredUser). email ≢ s.email) users
    → email_already_registered d files email ≡ ok false
unfolding email_already_registered qfrom qwhere
email_already_registered_absent d files email users at h absent =
    let none_found = passed_rows-email d email users absent in
    let run =
      select_executor-passed_rows d (email_query email) files (map stored_row users) at
        (rows-IsRow users h) (rw none_found (tt, omega arith)) in
    rw (qselect-email, rw none_found at run) (unfold result_of in refl)
