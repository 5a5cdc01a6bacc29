-- ===== src/Secret/Lines.antt =====
-- utils.c `read_line`: its buffer, and the lines of a file.
use cbank_system.Prelude.{
  ℕ, ◌+◌, ◌*◌, ◌<◌, ◌≡◌, refl, [], ◌∷◌, ◌++◌, append-nil, append_assoc, some, none, false, length,
  length-append, leb, ◌==◌, if◌then◌else◌, arith, inl, inr, Bool-cases,
}
use cbank_system.Text.{Bytes, Lacks, strcspn_cut}
use cbank_system.Text.Laws.{strcspn_cut-Lacks}
use cbank_system.Secret.{read_chars, read_line}

-- The zero byte behind the line is written inside the buffer, which is never full when the loop
-- ends.
pub length-read_chars :
    (buf f : Bytes) (size : ℕ)
    → length buf < size
    → length (read_chars buf size f).buf < (read_chars buf size f).size
unfolding read_chars
length-read_chars buf [] size h = h
length-read_chars buf (c ∷ f) size h =
    let fits : length (buf ++ c ∷ []) < (if leb size (length buf + 1) then size * 2 else size) =
      rw (length-append buf (c ∷ [])) (ground arith) in
    elim (Bool-cases (c == 10)) [
      | inl e ↦ rw (e, read_chars) h
      | inr e ↦ rw (e, read_chars) (length-read_chars (buf ++ c ∷ []) f _ fits)
    ]

read_chars-line :
    (buf line rest : Bytes) (size : ℕ)
    → Lacks 10 line
    → ((read_chars buf size (line ++ 10 ∷ rest)).buf ≡ buf ++ line)
      × ((read_chars buf size (line ++ 10 ∷ rest)).rest ≡ rest)
unfolding read_chars
read_chars-line buf [] rest size h = rw (append-nil buf) (refl, refl)
read_chars-line buf (c ∷ line) rest size (hc, h) =
    let e : (c == 10) ≡ false = ground arith in
    rw (e, ← append_assoc buf (c ∷ []) line)
      (read_chars-line (buf ++ c ∷ []) line rest
        (if leb size (length buf + 1) then size * 2 else size) h)

-- A line without newline and zero bytes is read as it is, and the stream stands behind its newline.
pub read_line-append :
    (line rest : Bytes)
    → Lacks 10 line
    → Lacks 0 line
    → read_line (line ++ 10 ∷ rest) ≡ some (line, rest)
unfolding read_line strcspn_cut
read_line-append [] rest h clean = refl
read_line-append (c ∷ line) rest h clean =
    let (text, left) = read_chars-line [] (c ∷ line) rest 128 h in
    rw (text, left, strcspn_cut-Lacks 0 (c ∷ line) clean) refl

pub read_line-nil : read_line [] ≡ none
unfolding read_line strcspn_cut
read_line-nil = refl
