-- ===== src/Render/Page.antt =====
-- render/engine.c: the string that `render_template` returns for a template of pieces.
use cbank_system.Prelude.{
  ℕ, zero, suc, ◌+◌, ◌-◌, ◌<◌, ◌≡◌, refl, ap, ◌∙◌, ◌↔◌, List, [], ◌∷◌, ◌++◌, some, length, take,
  drop, get_or, arith, All,
}
use cbank_system.Prelude.Ret.{ok}
use cbank_system.Text.{Bytes, Lacks, strcspn_cut}
use cbank_system.Render.{TemplateVar, Malloc, out_text, rendered, render_template}
use cbank_system.Render.Pieces.{
  Piece, IsPiece, template_text, substitute, render_loop-template_text,
}

-- A string whose zero byte is looked for behind a front without one.
strcspn_cut_iff :
    (out : Bytes) (c : ℕ) (rest : Bytes)
    → Lacks 0 out
    → (strcspn_cut 0 (out ++ c ∷ rest) ≡ out) ↔ (c ≡ 0)
unfolding strcspn_cut
strcspn_cut_iff [] c rest h = ground arith
strcspn_cut_iff (d ∷ out) c rest (hd, h) = ground (arith, strcspn_cut_iff out c rest h)

drop_of_lt :
    (n : ℕ) (block : Bytes)
    → n < length block
    → drop n block ≡ get_or block n 1 ∷ drop (suc n) block
drop_of_lt n [] h = absurd (omega arith)
drop_of_lt zero (c ∷ block) h = refl
drop_of_lt (suc n) (c ∷ block) h = drop_of_lt n block (omega arith)

take-append_cons :
    (n : ℕ) (out : Bytes) (c : ℕ) (rest : Bytes)
    → length out < n
    → take n (out ++ c ∷ rest) ≡ out ++ c ∷ take (n - length out - 1) rest
take-append_cons zero out c rest h = absurd (omega arith)
take-append_cons (suc n) [] c rest h = ap (λ m. c ∷ take m rest) (omega arith)
take-append_cons (suc n) (d ∷ out) c rest h =
    ap (λ s. d ∷ s)
      (take-append_cons n out c rest (omega arith) ∙ ap (λ m. out ++ c ∷ take m rest) (omega arith))

out_text_iff :
    (out_size : ℕ) (block out : Bytes)
    → Lacks 0 out
    → length out < out_size - 1
    → length out < length block
    → (out_text out_size block out ≡ out) ↔ (get_or block (length out) 1 ≡ 0)
unfolding out_text
out_text_iff out_size block out h room inside =
    rw
      (
        drop_of_lt (length out) block inside,
        take-append_cons (out_size - 1) out (get_or block (length out) 1)
            (drop (suc (length out)) block) room,
      )
      (strcspn_cut_iff out _ _ h)

-- A template of pieces whose text after substitution is shorter than the template and 1023 bytes
-- more is rendered within one round for each byte and one more, whatever the block held; and the
-- string that is returned is the substituted text exactly when the block held a zero byte behind it.
pub render_template-substitute :
    (malloc : Malloc) (block : Bytes) (vars : List TemplateVar) (pieces : List Piece)
    → All IsPiece pieces
    → Lacks 0 (substitute vars pieces)
    → length (substitute vars pieces) < length (template_text pieces) + 1023
    → malloc (length (template_text pieces) + 1024) ≡ some block
    → length block ≡ length (template_text pieces) + 1024
    → (page : Bytes) × (render_template
          (suc (length (template_text pieces)))
          malloc
          (template_text pieces)
          vars
        ≡ some (ok page))
      × ((page ≡ substitute vars pieces) ↔ (get_or block (length (substitute vars pieces)) 1 ≡ 0))
unfolding render_template
render_template-substitute malloc block vars pieces h clean room given size =
    let out_size = length (template_text pieces) + 1024 in
    (
      out_text out_size block (substitute vars pieces),
      rw
          (
            given,
            render_template,
            render_loop-template_text out_size vars pieces h (omega arith),
            rendered,
          )
          refl,
      out_text_iff out_size block (substitute vars pieces) clean (omega arith) (omega arith),
    )
