-- ===== src/Core/Auth/Tests.antt =====
-- The theorem on the login at a concrete table.
use cbank_system.Prelude.{◌≡◌, refl, [], ◌∷◌, none, some, map, arith}
use cbank_system.Prelude.Ret.{ok}
use cbank_system.Text.{codes, bytes_eq}
use cbank_system.Orm.Files.{Files, put_file}
use cbank_system.Orm.Select.{db_user_section}
use cbank_system.Orm.Table.{table_text}
use cbank_system.Orm.Tests.{naturals}
use cbank_system.Data.Users.Mount.{stored_row}
use cbank_system.Data.Users.Find.{find_user, users_of}
use cbank_system.Data.Tests.{ana, ana-IsStored, ana-IsLine}
use cbank_system.Core.Auth.{Crypt, LoginResponse, login}
use cbank_system.Core.Auth.Login.{Admits, login_iff}

-- Every password has the hash that Ana's has.
abbrev pub toy_crypt : Crypt
toy_crypt = λ pwd salt. some (codes "PHhash")

abbrev pub bank : Files
bank = put_file (λ p. none) db_user_section (table_text (map stored_row (ana ∷ [])))

login_iff_example :
    (response : LoginResponse) × (login naturals toy_crypt bank
        (codes "12345678900")
        (codes "secret")
      ≡ ok response)
    × Admits (find_user (codes "12345678900") (ana ∷ [])) (codes "PHhash") response
unfolding bytes_eq users_of
login_iff_example =
    login_iff naturals toy_crypt bank (codes "12345678900") (codes "secret") (codes "PHhash")
      (ana ∷ []) refl ((ana-IsStored, ana-IsLine), tt) (omega arith) refl
