-- ===== src/Utils.antt =====
-- utils.c: the string helpers that the parsers use.
use cbank_system.Prelude.{
  ℕ, List, Option, none, some, [], ◌∷◌, ◌++◌, ◌≡◌, refl, arith, ◌==◌, if◌then◌else◌,
}
use cbank_system.Prelude.Ret.{Ret, ok, fault}
use cbank_system.Text.{Bytes, Lacks, strchr, drop_while, is_char}

-- `while (*c == ' ') c++;`
unfoldable pub ltrim : Bytes → Bytes
ltrim c = drop_while (is_char b' ') c

pub ltrim-blank : (s : Bytes) → ltrim (b' ' ∷ s) ≡ ltrim s
unfolding ltrim drop_while
ltrim-blank s = refl

-- `get_fmt_now` hands out the address of an array of its own, which has ended when its caller reads
-- there: the caller copies what the stack then holds, up to a zero byte. `stack` is those bytes, none
-- where there is nothing to read; C defines neither.
unfoldable pub get_fmt_now : Option (List ℕ) → Ret Bytes
get_fmt_now none = fault
get_fmt_now (some stack) = elim (strchr 0 stack) [ none ↦ fault | some (text, behind) ↦ ok text ]

-- The bytes are copied down over those that are to go.
unfoldable pub remove_char : Bytes → ℕ → Bytes
remove_char [] find = []
remove_char (c ∷ str) find = if c == find then remove_char str find else c ∷ remove_char str find

-- Removing a character distributes over concatenation, and changes nothing where there is none.
pub remove_char-append :
    (s t : Bytes) (find : ℕ) → remove_char (s ++ t) find ≡ remove_char s find ++ remove_char t find
unfolding remove_char
remove_char-append [] t find = refl
remove_char-append (c ∷ s) t find = ground (arith, remove_char-append s t find)

pub remove_char-Lacks : (s : Bytes) (find : ℕ) → Lacks find s → remove_char s find ≡ s
unfolding remove_char
remove_char-Lacks [] find h = refl
remove_char-Lacks (c ∷ s) find (hc, h) = ground (arith, remove_char-Lacks s find h)
