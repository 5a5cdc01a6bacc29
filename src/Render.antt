-- ===== src/Render.antt =====
-- render/engine.c: the templates of the pages and their placeholders.
-- The pointer `p` is the rest of the template, `out` what was written of `out_buf` so far. The loop
-- runs on fuel; Render/Loop.antt is about the fuel it needs, Render/Pieces.antt about what it writes.
pub mod Loop
pub mod Bounds
pub mod Pieces
pub mod Page
mod Tests
use cbank_system.Prelude.{
  ℕ, zero, suc, ◌+◌, ◌-◌, Bool, true, false, ◌&&◌, List, [], ◌∷◌, ◌++◌, Option, none, some, length,
  take, drop, leb, ltb, ◌==◌, if◌then◌else◌,
}
use cbank_system.Prelude.Ret.{Ret, ok, null, fault}
use cbank_system.Text.{Bytes, codes, bytes_eq, starts_with, strcspn_cut}
use cbank_system.Orm.Files.{Files}

pub record TemplateVar : Type 0 where
  pub key : Bytes
  pub value : Bytes

-- What `malloc` hands out for a size: nothing, or a block with some contents.
abbrev pub Malloc : Type 0
Malloc = ℕ → Option (List ℕ)

-- The file is read whole into a block that ends in a zero byte.
unfoldable pub load_template_to_string : Files → Bytes → Ret Bytes
load_template_to_string files path = elim (files path) [
  | none ↦ null
  | some contents ↦ ok (strcspn_cut 0 contents)
]

-- `strstr(s, "}}")` as the distance to the closing braces, and what stands behind them.
unfoldable pub var_end : Bytes → Option (List ℕ × List ℕ)
unfolding starts_with
var_end [] = none
var_end (c ∷ s) =
    if starts_with (codes "}}") (c ∷ s)
    then some ([], drop 1 s)
    else elim (var_end s) [ none ↦ none | some (name, behind) ↦ some (c ∷ name, behind) ]

-- "{{" at the pointer and "}}" behind it: the name between them, and what is behind.
unfoldable pub placeholder : Bytes → Option (List ℕ × List ℕ)
unfolding starts_with var_end
placeholder p = if starts_with (codes "{{") p then var_end (drop 2 p) else none

-- The value of the first variable of that name. A name of 128 bytes has no zero byte behind it in
-- `key[128]`, and `strcmp` reads on where the variable's name begins with it.
unfoldable pub var_value : Bytes → List TemplateVar → Ret Bytes
unfolding starts_with bytes_eq
var_value name [] = ok []
var_value name (var ∷ vars) =
    let later = var_value name vars in
    if length name == 128 && starts_with name var.key
    then fault
    else if bytes_eq name var.key
    then ok var.value
    else later

-- `strncpy` puts `key_len` bytes into `key[128]`.
unfoldable pub lookup_var : Bytes → List TemplateVar → Ret Bytes
unfolding var_value
lookup_var name vars = if leb (length name) 128 then var_value name vars else fault

-- Where the loop stands: the rest of the template and what was written; done; or a fault.
pub data Rendering : Type 0 where
  running : Bytes → Bytes → Rendering
  finished : Bytes → Rendering
  broken : Rendering

-- A value is written unless it would reach the last byte of the block, which ends the loop.
unfoldable pub put_value : ℕ → Ret Bytes → Bytes → Bytes → Rendering
put_value out_size (ok value) behind out =
    if leb (out_size - 1) (length value + length out)
    then finished out
    else running behind (out ++ value)
put_value out_size null behind out = broken
put_value out_size fault behind out = broken

-- Any other byte is copied while there is room; without room neither pointer moves.
unfoldable pub put_byte : ℕ → ℕ → Bytes → Bytes → Rendering
put_byte out_size c p out =
    if ltb (length out) (out_size - 1) then running p (out ++ c ∷ []) else running (c ∷ p) out

-- One round of `while (*p)`.
unfoldable pub render_round : ℕ → List TemplateVar → Bytes → Bytes → Rendering
unfolding placeholder lookup_var put_value put_byte
render_round out_size vars [] out = finished out
render_round out_size vars (c ∷ p) out = elim (placeholder (c ∷ p)) [
  | none ↦ put_byte out_size c p out
  | some (name, behind) ↦ put_value out_size (lookup_var name vars) behind out
]

-- The next round, if there is one.
unfoldable pub resume : (Bytes → Bytes → Rendering) → Rendering → Rendering
resume next (running p out) = next p out
resume next (finished out) = finished out
resume next broken = broken

unfoldable pub render_loop : ℕ → ℕ → List TemplateVar → Bytes → Bytes → Rendering
unfolding render_round resume
render_loop zero out_size vars p out = running p out
render_loop (suc fuel) out_size vars p out =
    resume (render_loop fuel out_size vars) (render_round out_size vars p out)

-- `out_buf` as a string: what was written, then what the block held before, up to the first zero
-- byte. The zero byte that the code writes is the last of the block.
unfoldable pub out_text : ℕ → Bytes → Bytes → Bytes
out_text out_size block out = strcspn_cut 0 (take (out_size - 1) (out ++ drop (length out) block))

unfoldable pub rendered : ℕ → Bytes → Rendering → Option (Ret Bytes)
unfolding out_text
rendered out_size block (running p out) = none
rendered out_size block (finished out) = some (ok (out_text out_size block out))
rendered out_size block broken = some fault

-- None where the fuel is used up. `vars` is empty for a null pointer.
unfoldable pub render_template : ℕ → Malloc → Bytes → List TemplateVar → Option (Ret Bytes)
unfolding render_loop rendered
render_template fuel malloc template vars =
    let out_size = length template + 1024 in
    elim (malloc out_size) [
      | none ↦ some null
      | some block ↦ rendered out_size block (render_loop fuel out_size vars template [])
    ]
