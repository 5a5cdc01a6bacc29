-- ===== src/Core/Users/Tests.antt =====
-- The theorem on registrations at a concrete bank.
use cbank_system.Prelude.{[], ◌∷◌, ◌++◌, none, some, map}
use cbank_system.Text.{Bytes, codes}
use cbank_system.Orm.Files.{Files, put_file}
use cbank_system.Orm.Select.{db_user_section, db_account_section}
use cbank_system.Orm.Table.{table_text}
use cbank_system.Data.Users.Mount.{stored_row}
use cbank_system.Data.Identity.{db_id_tracker_section}
use cbank_system.Data.Identity.Tracker.{tracker_text}
use cbank_system.Data.Tests.{ana, user_store, account_store}
use cbank_system.Core.Users.{CreateUserDto, StackReads}

abbrev bia : CreateUserDto
bia = record {
  name = codes "Bia";
  email = codes "bia@x.br";
  cpf = codes "98765432100";
  password = codes "secret";
}

abbrev today : Bytes
today = codes "2024-05-06 07:08:09"

-- What is left of the second date has lost its seconds.
abbrev stale : StackReads
stale = record {
  of_user = some (today ++ 0 ∷ 255 ∷ []);
  of_account = some (codes "2024-05-06 07:08" ++ 0 ∷ []);
}

abbrev disk : Files
disk =
    put_file
      (put_file (put_file (λ p. none) db_user_section (table_text (map stored_row (ana ∷ []))))
        db_account_section (table_text []))
      db_id_tracker_section (tracker_text (user_store ∷ account_store ∷ []))
