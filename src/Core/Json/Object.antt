-- ===== src/Core/Json/Object.antt =====
-- The text of an object, against an independent printer.
use cbank_system.Prelude.{
  ◌-◌, ◌<◌, ◌≡◌, refl, ap, sym, ◌∙◌, Bool, true, false, List, [], ◌∷◌, ◌++◌, length, take_of_le,
  length-append, append_assoc, append-nil, ltb, if◌then◌else◌, arith,
}
use cbank_system.Prelude.Int.{ℤ}
use cbank_system.Prelude.Ret.{Ret, ok, ◌>>=◌}
use cbank_system.Text.{Bytes, codes, print_int}
use cbank_system.Core.Json.{
  JsonBuilder, json_init, json_buf_size, print_at_offset, set_first, json_start_object,
  json_end_object, add_comma, json_add_comma_if_needed, quoted_key, add_member, json_add_string,
  json_add_int, json_add_bool, json_add_null, json_build,
}

-- A value, as the functions of the builder take it.
pub data Value : Type 0 where
  string : Bytes → Value
  int : ℤ → Value
  boolean : Bool → Value
  empty : Value

unfoldable pub value_text : Value → Bytes
value_text (string s) = b'"' ∷ (s ++ codes "\"")
value_text (int z) = print_int z
value_text (boolean b) = if b then codes "true" else codes "false"
value_text empty = codes "null"

-- The members of an object, with commas between them.
unfoldable pub members_text : List (Bytes × Value) → Bytes
members_text [] = []
members_text ((key, value) ∷ []) = quoted_key key ++ value_text value
members_text ((key, value) ∷ m ∷ members) =
    quoted_key key ++ value_text value ++ b',' ∷ members_text (m ∷ members)

unfoldable pub object_text : List (Bytes × Value) → Bytes
object_text members = b'{' ∷ (members_text members ++ b'}' ∷ [])

-- The call of the builder for a value.
unfoldable pub json_add : Bytes → Value → JsonBuilder → Ret JsonBuilder
json_add key (string s) jb = json_add_string key s jb
json_add key (int z) jb = json_add_int key z jb
json_add key (boolean b) jb = json_add_bool key b jb
json_add key empty jb = json_add_null key jb

unfoldable pub json_add_all : List (Bytes × Value) → JsonBuilder → Ret JsonBuilder
json_add_all [] jb = ok jb
json_add_all ((key, value) ∷ members) jb = json_add key value jb >>= json_add_all members

-- The builder at a text that fits.
abbrev pub holding : Bytes → Bool → JsonBuilder
holding text first = record { buf = text; offset = length text; is_first = first }

print_fits :
    (text more : Bytes) (first : Bool)
    → length (text ++ more) < json_buf_size
    → print_at_offset more (holding text first) ≡ ok (holding (text ++ more) first)
unfolding print_at_offset
print_fits text more first h =
    let sum = length-append text more in
    let in_range : ltb json_buf_size (length text) ≡ false = ground (arith, sum) in
    rw (take_of_le (json_buf_size - length text - 1) more (omega arith), in_range)
      (ap (λ n. ok (record { buf = text ++ more; offset = n; is_first = first })) (sym sum))

json_add-add_member :
    (key : Bytes) (value : Value) (jb : JsonBuilder)
    → json_add key value jb ≡ add_member key (value_text value) jb
unfolding json_add json_add_string json_add_int json_add_bool json_add_null value_text
json_add-add_member key (string s) jb = refl
json_add-add_member key (int z) jb = refl
json_add-add_member key (boolean b) jb = refl
json_add-add_member key empty jb = refl

-- What the members add behind a text: a comma in front of them, if there is a member already.
unfoldable behind : Bool → List (Bytes × Value) → Bytes
behind first [] = []
behind true (m ∷ members) = members_text (m ∷ members)
behind false (m ∷ members) = b',' ∷ members_text (m ∷ members)

behind_step :
    (first : Bool) (key : Bytes) (value : Value) (members : List (Bytes × Value))
    → behind first ((key, value) ∷ members)
      ≡ behind first ((key, value) ∷ []) ++ behind false members
unfolding behind members_text
behind_step true key value [] = sym (append-nil _)
behind_step true key value (m ∷ members) = simp append_assoc
behind_step false key value [] = sym (append-nil _)
behind_step false key value (m ∷ members) = simp append_assoc

add_member_fits :
    (text key : Bytes) (value : Value) (first : Bool)
    → length (text ++ behind first ((key, value) ∷ [])) < json_buf_size
    → json_add key value (holding text first)
      ≡ ok (holding (text ++ behind first ((key, value) ∷ [])) false)
unfolding add_member json_add_comma_if_needed behind members_text set_first add_comma
add_member_fits text key value true h =
    rw (json_add-add_member key value (holding text true), add_member) (print_fits text _ false h)
add_member_fits text key value false h =
    let pair = quoted_key key ++ value_text value in
    let comma : text ++ b',' ∷ pair ≡ (text ++ b',' ∷ []) ++ pair =
      sym (append_assoc text (b',' ∷ []) pair) in
    let sum = length-append (text ++ b',' ∷ []) pair in
    let whole = rw comma at h in
    rw
      (
        json_add-add_member key value (holding text false),
        add_member,
        print_fits text (b',' ∷ []) false (omega arith),
      )
      (rw comma (print_fits (text ++ b',' ∷ []) pair false whole))

add_all_fits :
    (text : Bytes) (first : Bool) (members : List (Bytes × Value))
    → length (text ++ behind first members) < json_buf_size
    → (b : Bool) × (json_add_all members (holding text first)
        ≡ ok (holding (text ++ behind first members) b))
unfolding json_add_all behind
add_all_fits text first [] h = (first, ap (λ s. ok (holding s first)) (sym (append-nil text)))
add_all_fits text first ((key, value) ∷ members) h =
    let here = behind first ((key, value) ∷ []) in
    let split : text ++ behind first ((key, value) ∷ members)
        ≡ (text ++ here) ++ behind false members =
      ap (λ s. text ++ s) (behind_step first key value members)
      ∙ sym (append_assoc text here (behind false members)) in
    let whole = rw split at h in
    let sum = length-append (text ++ here) (behind false members) in
    let (b, rest) = add_all_fits (text ++ here) false members whole in
    (b, rw (add_member_fits text key value first (omega arith), split) rest)

behind-true : (members : List (Bytes × Value)) → behind true members ≡ members_text members
unfolding behind members_text
behind-true [] = refl
behind-true (m ∷ members) = refl

started : (print_at_offset (b'{' ∷ []) json_init >>= set_first true) ≡ ok (holding (b'{' ∷ []) true)
unfolding print_at_offset set_first
started = refl

-- A text of a whole object that fits the buffer with its terminating zero is built without a fault:
-- the builder then holds the object's members in order, with commas between them.
pub json_build-object_text :
    (members : List (Bytes × Value))
    → length (object_text members) < json_buf_size
    → (json_start_object json_init >>= json_add_all members >>= json_end_object >>= λ jb.
        ok (json_build jb))
      ≡ ok (object_text members)
unfolding json_start_object json_end_object object_text
json_build-object_text members h =
    let inner : length (b'{' ∷ members_text members) < json_buf_size =
      ground (arith, length-append (members_text members) (b'}' ∷ [])) in
    let (b, added) = add_all_fits (b'{' ∷ []) true members (rw (behind-true members) inner) in
    rw (
      started,
      added,
      behind-true members,
      print_fits (b'{' ∷ members_text members) (b'}' ∷ []) b h,
    )
