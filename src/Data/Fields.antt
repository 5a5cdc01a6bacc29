-- ===== src/Data/Fields.antt =====
-- The fields "key=value" of a stored line, as `strstr` and `sscanf` find them.
pub mod Search
use cbank_system.Prelude.{
  ℕ, suc, ◌-◌, Bool, true, false, not, ◌&&◌, List, [], ◌∷◌, Option, none, some, length, take, drop,
  leb, ltb, ◌==◌, if◌then◌else◌, all,
}
use cbank_system.Prelude.Ret.{Ret, ok, fault, ◌>>=◌}
use cbank_system.Prelude.Int.{ℤ, pos, negsuc}
use cbank_system.Text.{Bytes, strstr, take_while, atol}

abbrev pub is_found : Option (List ℕ) → Bool
is_found none = false
is_found (some token) = true

-- Whether `strstr` finds every key in the line.
unfoldable pub has_fields : List Bytes → Bytes → Bool
has_fields keys line = all (λ key. is_found (strstr line key)) keys

-- `%<width>[^;]`: at least one byte. Without one the variable is not written, and it is read
-- uninitialised by what follows.
unfoldable pub non_empty : Bytes → Ret Bytes
non_empty [] = fault
non_empty (c ∷ s) = ok (c ∷ s)

unfoldable pub scan_set : ℕ → Bytes → Ret Bytes
unfolding non_empty
scan_set width s = non_empty (take width (take_while (λ c. not (c == b';')) s))

-- What stands behind a key at its first place; a null pointer would be followed without it.
unfoldable pub behind : Bytes → Bytes → Ret Bytes
behind key line = elim (strstr line key) [
  | none ↦ fault
  | some token ↦ ok (drop (length key) token)
]

-- `sscanf(strstr(line, key), "<key>%<width>[^;];", out)`.
unfoldable pub scan_field : Bytes → ℕ → Bytes → Ret Bytes
unfolding scan_set behind
scan_field key width line = behind key line >>= scan_set width

-- `strcpy` into an array of `size` bytes.
unfoldable pub strcpy : ℕ → Bytes → Ret Bytes
strcpy size s = if ltb (length s) size then ok s else fault

-- A number that an `int` holds.
abbrev pub int_max : ℕ
int_max = 2147483647

unfoldable pub to_int : ℤ → Ret ℤ
to_int (pos n) = if leb n int_max then ok (pos n) else fault
to_int (negsuc n) = if leb n int_max then ok (negsuc n) else fault

-- `sscanf(strstr(line, key), "<key>%d", &out)` with `out` zero at first.
unfoldable pub scan_int_field : Bytes → Bytes → Ret ℤ
unfolding behind to_int
scan_int_field key line = do s ← behind key line; to_int (atol s)
