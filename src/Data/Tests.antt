-- ===== src/Data/Tests.antt =====
-- The theorems on the stores at concrete users and identities.
use cbank_system.Prelude.{◌≡◌, refl, true, false, List, [], ◌∷◌, none, arith}
use cbank_system.Prelude.Ret.{ok, ◌>>=◌}
use cbank_system.Text.{codes, bytes_eq, print_nat}
use cbank_system.Orm.Files.{Files, put_file}
use cbank_system.Orm.Insert.{row_text}
use cbank_system.Orm.Tests.{naturals}
use cbank_system.Data.Users.{mount_user_from_line_buf}
use cbank_system.Data.Users.Mount.{
  StoredUser, stored_row, IsStored, mounted, mount_user_from_line_buf-stored_row,
}
use cbank_system.Data.Users.Find.{IsLine}
use cbank_system.Data.Identity.{db_id_tracker_section, get_next_identity, updt_next_identity}
use cbank_system.Data.Identity.Tracker.{Identity, IsIdentity, tracker_text}
use cbank_system.Data.Identity.Query.{entries_of}
use cbank_system.Data.Identity.Next.{get_next_identity-updt_next_identity}

abbrev pub ana : StoredUser
ana = record {
  id = codes "7";
  name = codes "Ana";
  cpf = codes "12345678900";
  email = codes "ana@x.br";
  password = codes "PHhash";
  created_at = codes "2024-01-02 03:04:05";
}

pub ana-IsStored : IsStored ana
ana-IsStored = (
  ((λ e. cc), omega arith, omega arith, omega arith),
  ((λ e. cc), omega arith, omega arith, omega arith),
  ((λ e. cc), omega arith, omega arith, omega arith),
  ((λ e. cc), omega arith, omega arith, omega arith),
  ((λ e. cc), omega arith, omega arith, omega arith),
  ((λ e. cc), omega arith, omega arith, omega arith),
)

pub ana-IsLine : IsLine ana
ana-IsLine = (omega arith, omega arith, omega arith, omega arith, omega arith, omega arith)

mount_user_from_line_buf-stored_row_example :
    mount_user_from_line_buf (row_text (stored_row ana)) ≡ ok (mounted ana)
mount_user_from_line_buf-stored_row_example = mount_user_from_line_buf-stored_row ana ana-IsStored

abbrev pub user_store : Identity
user_store = record { name = codes "./stores/user_db"; cur_id = 9; closed = false }

abbrev pub account_store : Identity
account_store = record { name = codes "./stores/account_db"; cur_id = 41; closed = true }

abbrev tracker : List Identity
tracker = user_store ∷ account_store ∷ []

pub user_store-IsIdentity : IsIdentity user_store
user_store-IsIdentity = ((λ e. cc), omega arith, omega arith, omega arith, omega arith, omega arith)

pub account_store-IsIdentity : IsIdentity account_store
account_store-IsIdentity =
    ((λ e. cc), omega arith, omega arith, omega arith, omega arith, omega arith)

abbrev disk : Files
disk = put_file (λ p. none) db_id_tracker_section (tracker_text tracker)

get_next_identity-updt_next_identity_example :
    (get_next_identity naturals disk (codes "./stores/account_db") 50 ≡ ok (print_nat 41))
    × ((updt_next_identity disk (codes "./stores/account_db")
          >>= (λ files'. get_next_identity naturals files' (codes "./stores/account_db") 50))
        ≡ ok (print_nat 42))
unfolding bytes_eq entries_of
get_next_identity-updt_next_identity_example =
    get_next_identity-updt_next_identity naturals disk (codes "./stores/account_db") tracker []
      account_store refl (user_store-IsIdentity, (account_store-IsIdentity, tt))
      (omega arith, (omega arith, tt)) (omega arith) refl
