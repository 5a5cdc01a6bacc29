-- ===== src/Core/Tests.antt =====
-- The builder of JSON documents at a concrete object.
use cbank_system.Prelude.{ℕ, true, List, [], ◌∷◌, ◌<◌, ◌≡◌, length, arith}
use cbank_system.Prelude.Ret.{ok, ◌>>=◌}
use cbank_system.Text.{codes}
use cbank_system.Core.Json.{json_init, json_start_object, json_end_object, json_build}
use cbank_system.Core.Json.Object.{
  Value, string, boolean, object_text, members_text, value_text, json_add_all,
  json_build-object_text,
}

abbrev account : List (List ℕ × Value)
account = (codes "id", string (codes "7")) ∷ (codes "active", boolean true) ∷ []

account-fits : length (object_text account) < 4096
unfolding object_text members_text value_text
account-fits = omega arith

json_build-object_text_example :
    (json_start_object json_init >>= json_add_all account >>= json_end_object >>= λ jb.
    ok (json_build jb))
    ≡ ok (object_text account)
json_build-object_text_example = json_build-object_text account account-fits
