-- ===== src/Render/Tests.antt =====
-- The theorems on templates at a concrete template.
use cbank_system.Prelude.{ℕ, List, ◌≡◌, ◌↔◌, refl, inl, [], ◌∷◌, some, get_or, replicate, arith}
use cbank_system.Prelude.Ret.{Ret, ok}
use cbank_system.Text.{Bytes, codes, bytes_eq}
use cbank_system.Render.{TemplateVar, Malloc, render_template}
use cbank_system.Render.Pieces.{Piece, template_text, piece_text, substitute, piece_value, value_of}
use cbank_system.Render.Page.{render_template-substitute}

-- A block of zero bytes.
abbrev zeroed : Malloc
zeroed = λ size. some (replicate size 0)

abbrev vars : List TemplateVar
vars = record { key = codes "name"; value = codes "Ana" } ∷ []

abbrev greeting : List Piece
greeting = Piece.plain (codes "Oi ") ∷ Piece.slot (codes "name") ∷ []

render_template-substitute_example :
    (page : Bytes) × (render_template 12 zeroed (codes "Oi {{name}}") vars ≡ some (ok page))
    × ((page ≡ codes "Oi Ana") ↔ ◌≡◌ {A = ℕ} (get_or (replicate 1035 0) 6 1) 0)
unfolding template_text piece_text substitute piece_value value_of bytes_eq
render_template-substitute_example =
    render_template-substitute zeroed (replicate 1035 0) vars greeting
      ((inl (omega arith), (inl (omega arith), omega arith)), ((omega arith, omega arith), tt))
      (omega arith) (omega arith) refl (omega arith)
