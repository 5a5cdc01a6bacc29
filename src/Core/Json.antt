-- ===== src/Core/Json.antt =====
-- core/json_builder.c: a buffer of fixed size that `snprintf` fills from left to right. How "%.6f"
-- prints a double is a parameter.
pub mod Object
use cbank_system.Prelude.{
  ℕ, ◌+◌, ◌-◌, Bool, true, false, [], ◌∷◌, ◌++◌, length, take, ltb, if◌then◌else◌,
}
use cbank_system.Prelude.Int.{ℤ}
use cbank_system.Prelude.Ret.{Ret, ok, fault, ◌>>=◌}
use cbank_system.Text.{Bytes, codes, print_int}

abbrev pub json_buf_size : ℕ
json_buf_size = 4096

-- `buf` is the text in front of the terminating zero.
pub record JsonBuilder : Type 0 where
  pub buf : Bytes
  pub offset : ℕ
  pub is_first : Bool

abbrev pub json_init : JsonBuilder
json_init = record { buf = []; offset = 0; is_first = true }

-- `snprintf` at the offset, with the room that is left, adds the length of the whole text to the
-- offset. Behind the end of the buffer that room is a size that has wrapped around.
unfoldable pub print_at_offset : Bytes → JsonBuilder → Ret JsonBuilder
print_at_offset text jb =
    if ltb json_buf_size jb.offset
    then fault
    else ok (record jb {
      buf = jb.buf ++ take (json_buf_size - jb.offset - 1) text;
      offset = jb.offset + length text;
    })

unfoldable pub set_first : Bool → JsonBuilder → Ret JsonBuilder
set_first b jb = ok (record jb { is_first = b })

unfoldable pub json_start_object : JsonBuilder → Ret JsonBuilder
json_start_object jb = print_at_offset (codes "{") jb >>= set_first true

unfoldable pub json_end_object : JsonBuilder → Ret JsonBuilder
json_end_object jb = print_at_offset (codes "}") jb

unfoldable pub add_comma : JsonBuilder → Ret JsonBuilder
add_comma jb = print_at_offset (codes ",") jb

unfoldable pub json_add_comma_if_needed : JsonBuilder → Ret JsonBuilder
json_add_comma_if_needed jb = if jb.is_first then set_first false jb else add_comma jb

-- A quoted key with its colon.
abbrev pub quoted_key : Bytes → Bytes
quoted_key key = b'"' ∷ (key ++ codes "\":")

-- A member of an object: a comma where one is needed, the key, and the text of the value.
unfoldable pub add_member : Bytes → Bytes → JsonBuilder → Ret JsonBuilder
add_member key text jb = json_add_comma_if_needed jb >>= print_at_offset (quoted_key key ++ text)

unfoldable pub json_start_array : Bytes → JsonBuilder → Ret JsonBuilder
json_start_array key jb = add_member key (codes "[") jb >>= set_first true

unfoldable pub json_end_array : JsonBuilder → Ret JsonBuilder
json_end_array jb = print_at_offset (codes "]") jb >>= set_first false

unfoldable pub json_add_string : Bytes → Bytes → JsonBuilder → Ret JsonBuilder
json_add_string key value jb = add_member key (b'"' ∷ (value ++ codes "\"")) jb

unfoldable pub json_add_int : Bytes → ℤ → JsonBuilder → Ret JsonBuilder
json_add_int key value jb = add_member key (print_int value) jb

unfoldable pub json_add_float {ℓ} :
    {Double : Type ℓ} → (Double → Bytes) → Bytes → Double → JsonBuilder → Ret JsonBuilder
json_add_float print_double key value jb = add_member key (print_double value) jb

unfoldable pub json_add_bool : Bytes → Bool → JsonBuilder → Ret JsonBuilder
json_add_bool key value jb = add_member key (if value then codes "true" else codes "false") jb

unfoldable pub json_add_null : Bytes → JsonBuilder → Ret JsonBuilder
json_add_null key jb = add_member key (codes "null") jb

abbrev pub json_build : JsonBuilder → Bytes
json_build jb = jb.buf
