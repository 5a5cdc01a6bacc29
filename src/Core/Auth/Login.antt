-- ===== src/Core/Auth/Login.antt =====
-- core/auth.c: who can log in.
use cbank_system.Prelude.{
  ◌≤◌, ◌≡◌, ◌↔◌, refl, true, List, Option, some, none, map, length, All, Bool-cases, inl, inr, sym,
  ap, ◌∙◌,
}
use cbank_system.Prelude.Ret.{ok}
use cbank_system.Text.{Bytes, bytes_eq, bytes_eq_iff}
use cbank_system.Orm.Files.{Files}
use cbank_system.Orm.Filtering.{Doubles}
use cbank_system.Orm.Select.{db_user_section}
use cbank_system.Orm.Table.{table_text}
use cbank_system.Data.Users.Mount.{StoredUser, stored_row, mounted}
use cbank_system.Data.Users.Find.{
  IsUser, find_user, users_of, found_user, get_user_by_cpf-find_user,
}
use cbank_system.Core.Auth.{
  Crypt, pwd_hash_salt, hash_str, LoginResponse, login_refused, check_password, login,
}

-- The user whom a CPF and the hash of a password let in.
abbrev pub Admits : Option StoredUser → Bytes → LoginResponse → Type 0
Admits found hash response =
    (response.success ≡ true)
    ↔ ((s : StoredUser) × (found ≡ some s) × (s.password ≡ hash) × (response.user ≡ mounted s))

check_password-found_user :
    (crypt : Crypt) (pwd hash : Bytes) (found : Option StoredUser)
    → crypt pwd pwd_hash_salt ≡ some hash
    → (response : LoginResponse) × (check_password crypt pwd (found_user found) ≡ ok response)
      × Admits found hash response
unfolding check_password found_user
check_password-found_user crypt pwd hash none e =
    (login_refused, refl, (λ h. cc, λ (s, at, h, j). cc))
check_password-found_user crypt pwd hash (some s) e = elim (Bool-cases (bytes_eq hash s.password)) [
  | inl f ↦ (
    record { user = mounted s; success = true },
    rw (e, hash_str, f) refl,
    (λ h. (s, refl, sym ((bytes_eq_iff hash s.password).0 f), refl), λ h. refl),
  )
  | inr f ↦ (
    login_refused,
    rw (e, hash_str, f) refl,
    (
      λ h. cc,
      λ (t, at, h, j).
          let same : s ≡ t = cc in
          let held : bytes_eq hash s.password ≡ true =
            (bytes_eq_iff hash s.password).1 (sym (ap (λ (u : StoredUser). u.password) same ∙ h)) in
          cc,
    ),
  )
]

-- On a table of stored users of which at most a hundred have the CPF, and where `crypt` gives a
-- hash, `login` returns. It succeeds exactly when the first user of the CPF has that hash stored,
-- and then it returns that user.
pub login_iff :
    (d : Doubles) (crypt : Crypt) (files : Files) (cpf pwd hash : Bytes) (users : List StoredUser)
    → files db_user_section ≡ some (table_text (map stored_row users))
    → All IsUser users
    → length (users_of cpf users) ≤ 100
    → crypt pwd pwd_hash_salt ≡ some hash
    → (response : LoginResponse) × (login d crypt files cpf pwd ≡ ok response)
      × Admits (find_user cpf users) hash response
unfolding login
login_iff d crypt files cpf pwd hash users at h few e =
    rw (get_user_by_cpf-find_user d files cpf users at h few)
      (check_password-found_user crypt pwd hash (find_user cpf users) e)
