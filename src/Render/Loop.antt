-- ===== src/Render/Loop.antt =====
-- render/engine.c: the loop of `render_template`, its rounds and its writes.
use cbank_system.Prelude.{
  ℕ, suc, ◌+◌, ◌≤◌, ◌<◌, ◌≡◌, refl, Bool, true, false, List, [], ◌∷◌, some, length, All, ◌*◌,
  if◌then◌else◌,
}
use cbank_system.Prelude.Ret.{Ret}
use cbank_system.Text.{Bytes, codes, starts_with}
use cbank_system.Render.{TemplateVar, Rendering, rendered}

-- How often "{{" stands in a text: a bound on the placeholders that are met.
unfoldable pub slots : Bytes → ℕ
slots [] = 0
slots (c ∷ s) = if starts_with (codes "{{") (c ∷ s) then suc (slots s) else slots s

-- No value is longer than `longest`.
abbrev pub AtMost : ℕ → List TemplateVar → Type 0
AtMost longest vars = All (λ (v : TemplateVar). length v.value ≤ longest) vars

-- The loop has ended.
abbrev ended : Rendering → Bool
ended (Rendering.running p out) = false
ended (Rendering.finished out) = true
ended Rendering.broken = true

-- The block has room for what was written, the rest of the template, and a longest value for each
-- placeholder that is still to come.
abbrev HasRoom : ℕ → ℕ → Bytes → Bytes → Type 0
HasRoom longest out_size p out = length out + length p + slots p * longest + 1 < out_size

-- None is a rendering that is not at its end.
pub result_at_end :
    (out_size : ℕ) (block : Bytes) (r : Rendering)
    → ended r ≡ true
    → (result : Ret Bytes) × (rendered out_size block r ≡ some result)
unfolding rendered
result_at_end out_size block (Rendering.running p out) e = cc
result_at_end out_size block (Rendering.finished out) e = (_, refl)
result_at_end out_size block Rendering.broken e = (_, refl)
