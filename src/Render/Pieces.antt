-- ===== src/Render/Pieces.antt =====
-- render/engine.c: `render_template` against substitution in a template that is a list of pieces.
use cbank_system.Prelude.{
  ℕ, suc, ◌+◌, ◌-◌, ◌≤◌, ◌<◌, ◌≡◌, ◌≢◌, refl, ◌⊎◌, inl, inr, List, [], ◌∷◌, ◌++◌, append-nil,
  append_assoc, some, length, length-append, if◌then◌else◌, arith, All,
}
use cbank_system.Prelude.Ret.{ok}
use cbank_system.Text.{Bytes, Lacks, bytes_eq, starts_with}
use cbank_system.Render.{
  TemplateVar, var_end, placeholder, var_value, lookup_var, Rendering, put_value, put_byte,
  render_round, resume, render_loop,
}

-- A template is text and the names of variables.
pub data Piece : Type 0 where
  plain : Bytes → Piece
  slot : Bytes → Piece

unfoldable pub piece_text : Piece → Bytes
piece_text (Piece.plain text) = text
piece_text (Piece.slot name) = b'{' ∷ b'{' ∷ (name ++ b'}' ∷ b'}' ∷ [])

unfoldable pub template_text : List Piece → Bytes
unfolding piece_text
template_text [] = []
template_text (piece ∷ pieces) = piece_text piece ++ template_text pieces

-- The value of the first variable of that name, or nothing.
unfoldable pub value_of : List TemplateVar → Bytes → Bytes
value_of [] name = []
value_of (var ∷ vars) name =
    let later = value_of vars name in if bytes_eq name var.key then var.value else later

unfoldable pub piece_value : List TemplateVar → Piece → Bytes
unfolding value_of
piece_value vars (Piece.plain text) = text
piece_value vars (Piece.slot name) = value_of vars name

unfoldable pub substitute : List TemplateVar → List Piece → Bytes
unfolding piece_value
substitute vars [] = []
substitute vars (piece ∷ pieces) = piece_value vars piece ++ substitute vars pieces

-- A text in which no '{' stands before another, nor at the end.
abbrev pub LoneBraces : Bytes → Type 0
LoneBraces [] = Unit
LoneBraces (c ∷ []) = c ≢ b'{'
LoneBraces (c ∷ d ∷ text) = ((c ≢ b'{') ⊎ (d ≢ b'{')) × LoneBraces (d ∷ text)

-- A name fits the key buffer with its zero byte, and has no '}'.
abbrev pub IsPiece : Piece → Type 0
IsPiece (Piece.plain text) = LoneBraces text
IsPiece (Piece.slot name) = Lacks b'}' name × (length name < 128)

var_end-append :
    (name behind : Bytes)
    → Lacks b'}' name
    → var_end (name ++ b'}' ∷ b'}' ∷ behind) ≡ some (name, behind)
unfolding var_end starts_with
var_end-append [] behind h = refl
var_end-append (c ∷ name) behind (hc, h) = ground (arith, var_end-append name behind h)

var_value-value_of :
    (name : Bytes) (vars : List TemplateVar)
    → length name < 128
    → var_value name vars ≡ ok (value_of vars name)
unfolding var_value value_of
var_value-value_of name [] h = refl
var_value-value_of name (var ∷ vars) h = ground (arith, var_value-value_of name vars h)

lookup_var-value_of :
    (name : Bytes) (vars : List TemplateVar)
    → length name < 128
    → lookup_var name vars ≡ ok (value_of vars name)
unfolding lookup_var
lookup_var-value_of name vars h = ground (arith, var_value-value_of name vars h)

-- One round at a placeholder.
render_round-var :
    (out_size : ℕ) (vars : List TemplateVar) (name p out : Bytes)
    → Lacks b'}' name
    → length name < 128
    → length out + length (value_of vars name) < out_size - 1
    → render_round out_size vars (b'{' ∷ b'{' ∷ (name ++ b'}' ∷ b'}' ∷ p)) out
      ≡ Rendering.running p (out ++ value_of vars name)
unfolding render_round placeholder starts_with put_value
render_round-var out_size vars name p out lacks short room =
    rw (render_round, var_end-append name p lacks, lookup_var-value_of name vars short)
      (ground arith)

-- One round at a byte that begins no placeholder.
render_round-plain :
    (out_size : ℕ) (vars : List TemplateVar) (c : ℕ) (text rest out : Bytes)
    → LoneBraces (c ∷ text)
    → length out < out_size - 1
    → render_round out_size vars (c ∷ (text ++ rest)) out
      ≡ Rendering.running (text ++ rest) (out ++ c ∷ [])
unfolding render_round placeholder starts_with put_byte
render_round-plain out_size vars c [] rest out h room = ground arith
render_round-plain out_size vars c (d ∷ text) rest out (inl h, k) room = ground arith
render_round-plain out_size vars c (d ∷ text) rest out (inr h, k) room = ground arith

LoneBraces-tail : (c : ℕ) (text : Bytes) → LoneBraces (c ∷ text) → LoneBraces text
LoneBraces-tail c [] h = tt
LoneBraces-tail c (d ∷ text) (h, k) = k

zero_add : (n : ℕ) → 0 + n ≡ n
zero_add n = omega arith

suc_add : (m n : ℕ) → suc m + n ≡ suc (m + n)
suc_add m n = omega arith

add_assoc : (l m n : ℕ) → l + m + n ≡ l + (m + n)
add_assoc l m n = omega arith

render_loop-plain :
    (fuel out_size : ℕ) (vars : List TemplateVar) (text rest out : Bytes)
    → LoneBraces text
    → length out + length text < out_size - 1
    → render_loop (length text + fuel) out_size vars (text ++ rest) out
      ≡ render_loop fuel out_size vars rest (out ++ text)
unfolding render_loop
render_loop-plain fuel out_size vars [] rest out h room = rw (zero_add fuel, append-nil out) refl
render_loop-plain fuel out_size vars (c ∷ text) rest out h room =
    rw
      (
        suc_add (length text) fuel,
        render_loop,
        render_round-plain out_size vars c text rest out h (omega arith),
        resume,
        ← append_assoc out (c ∷ []) text,
      )
      (render_loop-plain fuel out_size vars text rest (out ++ c ∷ []) (LoneBraces-tail c text h)
        (rw (length-append out (c ∷ [])) (omega arith)))

render_loop-slot :
    (fuel out_size : ℕ) (vars : List TemplateVar) (name p out : Bytes)
    → Lacks b'}' name
    → length name < 128
    → length out + length (value_of vars name) < out_size - 1
    → render_loop (suc fuel) out_size vars (b'{' ∷ b'{' ∷ (name ++ b'}' ∷ b'}' ∷ p)) out
      ≡ render_loop fuel out_size vars p (out ++ value_of vars name)
unfolding render_loop
render_loop-slot fuel out_size vars name p out lacks short room =
    rw (render_round-var out_size vars name p out lacks short room, resume) refl

-- The rounds that a template takes.
rounds : List Piece → ℕ
rounds [] = 0
rounds (Piece.plain text ∷ pieces) = length text + rounds pieces
rounds (Piece.slot name ∷ pieces) = suc (rounds pieces)

rounds-template_text : (pieces : List Piece) → rounds pieces ≤ length (template_text pieces)
unfolding rounds template_text
rounds-template_text [] = omega arith
rounds-template_text (Piece.plain text ∷ pieces) =
    rw (length-append text (template_text pieces)) (omega (arith, rounds-template_text pieces))
rounds-template_text (Piece.slot name ∷ pieces) =
    rw (length-append (piece_text (Piece.slot name)) (template_text pieces))
      (omega (arith, rounds-template_text pieces))

render_loop-pieces :
    (fuel out_size : ℕ) (vars : List TemplateVar) (pieces : List Piece) (out : Bytes)
    → All IsPiece pieces
    → length out + length (substitute vars pieces) < out_size - 1
    → render_loop (rounds pieces + suc fuel) out_size vars (template_text pieces) out
      ≡ Rendering.finished (out ++ substitute vars pieces)
unfolding rounds template_text substitute piece_value
render_loop-pieces fuel out_size vars [] out h room =
    unfold render_loop render_round in rw (zero_add (suc fuel), resume, append-nil out) refl
render_loop-pieces fuel out_size vars (Piece.plain text ∷ pieces) out (hp, h) room =
    let room' = rw (length-append text (substitute vars pieces)) at room in
    rw
      (
        add_assoc (length text) (rounds pieces) (suc fuel),
        render_loop-plain (rounds pieces + suc fuel) out_size vars text (template_text pieces) out
            hp (omega arith),
        ← append_assoc out text (substitute vars pieces),
      )
      (render_loop-pieces fuel out_size vars pieces (out ++ text) h
        (rw (length-append out text) (omega arith)))
render_loop-pieces fuel out_size vars (Piece.slot name ∷ pieces) out ((lacks, short), h) room =
    let room' = rw (length-append (value_of vars name) (substitute vars pieces)) at room in
    rw
      (
        suc_add (rounds pieces) (suc fuel),
        append_assoc name (b'}' ∷ b'}' ∷ []) (template_text pieces),
        render_loop-slot (rounds pieces + suc fuel) out_size vars name (template_text pieces) out
            lacks short (omega arith),
        ← append_assoc out (value_of vars name) (substitute vars pieces),
      )
      (render_loop-pieces fuel out_size vars pieces (out ++ value_of vars name) h
        (rw (length-append out (value_of vars name)) (omega arith)))

-- The rounds that the template's length allows are enough.
pub render_loop-template_text :
    (out_size : ℕ) (vars : List TemplateVar) (pieces : List Piece)
    → All IsPiece pieces
    → length (substitute vars pieces) < out_size - 1
    → render_loop (suc (length (template_text pieces))) out_size vars (template_text pieces) []
      ≡ Rendering.finished (substitute vars pieces)
render_loop-template_text out_size vars pieces h room =
    let more = length (template_text pieces) - rounds pieces in
    let count : suc (length (template_text pieces)) ≡ rounds pieces + suc more =
      omega (arith, rounds-template_text pieces) in
    rw count (render_loop-pieces more out_size vars pieces [] h (omega arith))
