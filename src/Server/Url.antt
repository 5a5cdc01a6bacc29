-- ===== src/Server/Url.antt =====
-- server/http_parser.c: `urldecode` and the query parameters.
pub mod RoundTrip
use cbank_system.Prelude.{
  ℕ, ◌+◌, ◌-◌, ◌*◌, ◌%◌, Bool, not, ◌&&◌, ◌||◌, List, [], ◌∷◌, ◌++◌, length, leb, ltb, ◌==◌,
  if◌then◌else◌,
}
use cbank_system.Text.{Bytes, is_digit, take_while, drop_while, strcspn_cut}
use cbank_system.Server.Http.{Pair}

unfoldable pub isxdigit : ℕ → Bool
unfolding is_digit
isxdigit c = is_digit c || (leb b'A' c && leb c b'F') || (leb b'a' c && leb c b'f')

-- A lower case letter is made upper case; then a letter is 10 to 15, and a digit its value.
unfoldable pub hex_value : ℕ → ℕ
hex_value a =
    let upper = if leb b'a' a then a - (b'a' - b'A') else a in
    if leb b'A' upper then upper - b'A' + 10 else upper - b'0'

unfoldable pub plus_to_blank : ℕ → ℕ
plus_to_blank c = if c == b'+' then b' ' else c

-- "%" in front of two hexadecimal digits is the byte that they spell, and "+" a blank.
unfoldable pub urldecode : Bytes → Bytes
urldecode [] = []
urldecode (c ∷ []) = plus_to_blank c ∷ []
urldecode (c ∷ a ∷ []) = plus_to_blank c ∷ urldecode (a ∷ [])
urldecode (c ∷ a ∷ b ∷ src) =
    let behind = urldecode src in
    let next = urldecode (a ∷ b ∷ src) in
    if c == b'%' && (isxdigit a && isxdigit b)
    then ((16 * hex_value a + hex_value b) % 256) ∷ behind
    else plus_to_blank c ∷ next

abbrev pub max_params : ℕ
max_params = 50

unfoldable pub append_query_param : Bytes → Bytes → List Pair → List Pair
append_query_param key value params =
    if ltb max_params (length params + 1) then params else params ++ (key, value) ∷ []

-- What is left, as a C string, of a text that a loop of `strtok_r` and `strchr` has cut up: the separators in front of the
-- first token, and that token up to its "=".
unfoldable pub cut_up : (ℕ → Bool) → Bytes → Bytes
cut_up separator s =
    take_while separator s
    ++ strcspn_cut b'=' (take_while (λ c. not (separator c)) (drop_while separator s))
