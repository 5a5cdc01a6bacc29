-- ===== src/Render/Bounds.antt =====
-- render/engine.c: the writes of `render_template` into `out_buf`.
use cbank_system.Prelude.{
  ℕ, zero, suc, ◌+◌, ◌-◌, ◌≤◌, List, [], ◌∷◌, length, length-append, leb, ltb, arith, inl, inr,
  Bool-cases, Option-cases,
}
use cbank_system.Prelude.Ret.{Ret, ok, null, fault}
use cbank_system.Text.{Bytes}
use cbank_system.Render.{
  TemplateVar, placeholder, lookup_var, Rendering, put_value, put_byte, render_round, resume,
  render_loop,
}

-- The bytes at the front of `out_buf` that the loop has written.
abbrev pub written : Rendering → Bytes
written (Rendering.running p out) = out
written (Rendering.finished out) = out
written Rendering.broken = []

length-put_value :
    (out_size : ℕ) (value : Ret Bytes) (behind out : Bytes)
    → length out ≤ out_size - 1
    → length (written (put_value out_size value behind out)) ≤ out_size - 1
unfolding put_value
length-put_value out_size (ok value) behind out h =
    elim (Bool-cases (leb (out_size - 1) (length value + length out))) [
      | inl e ↦ rw e h
      | inr e ↦ rw (e, length-append out value) (ground arith)
    ]
length-put_value out_size null behind out h = omega arith
length-put_value out_size fault behind out h = omega arith

length-put_byte :
    (out_size c : ℕ) (p out : Bytes)
    → length out ≤ out_size - 1
    → length (written (put_byte out_size c p out)) ≤ out_size - 1
unfolding put_byte
length-put_byte out_size c p out h = elim (Bool-cases (ltb (length out) (out_size - 1))) [
  | inl e ↦ rw (e, length-append out (c ∷ [])) (ground arith)
  | inr e ↦ rw e h
]

length-render_round :
    (out_size : ℕ) (vars : List TemplateVar) (p out : Bytes)
    → length out ≤ out_size - 1
    → length (written (render_round out_size vars p out)) ≤ out_size - 1
unfolding render_round
length-render_round out_size vars [] out h = h
length-render_round out_size vars (c ∷ p) out h = elim (Option-cases (placeholder (c ∷ p))) [
  | inl e ↦ rw (e, render_round) (length-put_byte out_size c p out h)
  | inr ((name, behind), e) ↦
      rw (e, render_round) (length-put_value out_size (lookup_var name vars) behind out h)
]

length-resume :
    (out_size : ℕ) (next : Bytes → Bytes → Rendering) (r : Rendering)
    → ((p out : Bytes) → length out ≤ out_size - 1 → length (written (next p out)) ≤ out_size - 1)
    → length (written r) ≤ out_size - 1
    → length (written (resume next r)) ≤ out_size - 1
unfolding resume
length-resume out_size next (Rendering.running p out) rest h = rest p out h
length-resume out_size next (Rendering.finished out) rest h = h
length-resume out_size next Rendering.broken rest h = h

-- However many rounds the loop makes, what it has written never reaches the last byte of the block.
pub length-render_loop :
    (fuel out_size : ℕ) (vars : List TemplateVar) (p out : Bytes)
    → length out ≤ out_size - 1
    → length (written (render_loop fuel out_size vars p out)) ≤ out_size - 1
unfolding render_loop
length-render_loop zero out_size vars p out h = h
length-render_loop (suc fuel) out_size vars p out h =
    length-resume out_size (render_loop fuel out_size vars) (render_round out_size vars p out)
      (length-render_loop fuel out_size vars) (length-render_round out_size vars p out h)
