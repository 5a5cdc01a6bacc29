-- ===== src/Text/Search.antt =====
-- `strstr`, `strchr` and `strcspn`.
use cbank_system.Prelude.{
  ℕ, Bool, true, false, ◌&&◌, List, [], ◌∷◌, Option, none, some, ◌==◌, if◌then◌else◌,
}
use cbank_system.Text.Compare.{Bytes}

unfoldable pub starts_with : Bytes → Bytes → Bool
starts_with [] s = true
starts_with (n ∷ ns) [] = false
starts_with (n ∷ ns) (c ∷ s) = n == c && starts_with ns s

-- `strstr(s, needle)`: the rest of `s` from the first occurrence on.
unfoldable pub strstr : Bytes → Bytes → Option Bytes
unfolding starts_with
strstr [] needle = if starts_with needle [] then some [] else none
strstr (c ∷ s) needle = if starts_with needle (c ∷ s) then some (c ∷ s) else strstr s needle

-- `strchr(s, b)` with the byte found overwritten by zero: what stands before it, and behind it.
unfoldable pub strchr : ℕ → Bytes → Option (List ℕ × List ℕ)
strchr b [] = none
strchr b (c ∷ s) =
    if c == b
    then some ([], s)
    else elim (strchr b s) [ none ↦ none | some (l, r) ↦ some (c ∷ l, r) ]

-- `s[strcspn(s, "b")] = '\0'`: the string up to the first `b`.
unfoldable pub strcspn_cut : ℕ → Bytes → Bytes
strcspn_cut b [] = []
strcspn_cut b (c ∷ s) = if c == b then [] else c ∷ strcspn_cut b s
