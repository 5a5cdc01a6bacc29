-- ===== src/Core/Auth.antt =====
-- core/auth.c: the check of a password, and `hash_str` of utils.c. `crypt` is a parameter; where it
-- fails it hands out a null pointer.
pub mod Login
pub mod Tests
use cbank_system.Prelude.{Bool, true, false, Option, none, some, if◌then◌else◌}
use cbank_system.Prelude.Ret.{Ret, ok, fault, ◌>>=◌}
use cbank_system.Text.{Bytes, codes, bytes_eq}
use cbank_system.Orm.Files.{Files}
use cbank_system.Orm.Filtering.{Doubles}
use cbank_system.Data.Models.{BankUser, no_user, GetUserByFieldResponse}
use cbank_system.Data.Users.{get_user_by_cpf}

abbrev pub pwd_hash_salt : Bytes
pwd_hash_salt = codes "PHToXCpRR1qGC2G8Cvi9fA=="

abbrev pub Crypt : Type 0
Crypt = Bytes → Bytes → Option Bytes

-- The hash of a string; every caller follows the pointer.
unfoldable pub hash_str : Crypt → Bytes → Bytes → Ret Bytes
hash_str crypt str salt = elim (crypt str salt) [ none ↦ fault | some hash ↦ ok hash ]

pub record LoginResponse : Type 0 where
  pub user : BankUser
  pub success : Bool

abbrev pub login_refused : LoginResponse
login_refused = record { user = no_user; success = false }

-- The user that was found, if the password has the hash that is stored.
unfoldable pub check_password : Crypt → Bytes → GetUserByFieldResponse → Ret LoginResponse
unfolding hash_str
check_password crypt pwd user =
    if user.success
    then (do
      hash ← hash_str crypt pwd pwd_hash_salt
      ok (
          if bytes_eq hash user.user.password
          then record { user = user.user; success = true }
          else login_refused))
    else ok login_refused

unfoldable pub login : Doubles → Crypt → Files → Bytes → Bytes → Ret LoginResponse
unfolding check_password
login d crypt files cpf pwd = get_user_by_cpf d files cpf >>= check_password crypt pwd
