-- ===== src/Text/Lines.antt =====
-- `while (fgets(buf, size, f))`: the lines of a file, in pieces that fit the buffer.
use cbank_system.Prelude.{
  ℕ, ◌-◌, ◌<◌, ◌≡◌, refl, ◌∙◌, ◌||◌, List, [], ◌∷◌, ◌++◌, arith, ◌==◌, leb, if◌then◌else◌, length,
}
use cbank_system.Text.Compare.{Bytes, Lacks}

-- An empty piece ends the file.
keep_piece : Bytes → List Bytes → List Bytes
keep_piece [] later = later
keep_piece (c ∷ piece) later = (c ∷ piece) ∷ later

-- The piece that is being read, with `room` bytes left for it, and the pieces behind it. A piece
-- ends behind a newline, which it keeps, and where the buffer is full.
pieces : ℕ → ℕ → Bytes → List ℕ × List (List ℕ)
unfolding keep_piece
pieces most room [] = ([], [])
pieces most room (c ∷ s) =
    let ends = c == 10 || leb room 1 in
    let rest = pieces most (if ends then most else room - 1) s in
    if ends then (c ∷ [], keep_piece rest.0 rest.1) else (c ∷ rest.0, rest.1)

-- `most` is the size of the buffer less one.
unfoldable pub fgets_lines : ℕ → Bytes → List Bytes
unfolding pieces
fgets_lines most s = keep_piece (pieces most most s).0 (pieces most most s).1

pieces_line :
    (most room : ℕ) (line rest : Bytes)
    → Lacks 10 line
    → length line < room
    → pieces most room (line ++ 10 ∷ rest) ≡ (line ++ 10 ∷ [], fgets_lines most rest)
unfolding pieces
pieces_line most room [] rest h fits = unfold fgets_lines in ground arith
pieces_line most room (c ∷ line) rest (hc, h) fits =
    ground (arith, pieces_line most (room - 1) line rest h)

keep_line :
    (line : Bytes) (later : List Bytes)
    → keep_piece (line ++ 10 ∷ []) later ≡ (line ++ 10 ∷ []) ∷ later
unfolding keep_piece
keep_line [] later = refl
keep_line (c ∷ line) later = refl

fgets_lines_lem :
    (most : ℕ) (s : Bytes)
    → fgets_lines most s ≡ keep_piece (pieces most most s).0 (pieces most most s).1
unfolding fgets_lines
fgets_lines_lem most s = refl

-- A line that fits the buffer is read whole.
pub fgets_lines-append :
    (most : ℕ) (line rest : Bytes)
    → Lacks 10 line
    → length line < most
    → fgets_lines most (line ++ 10 ∷ rest) ≡ (line ++ 10 ∷ []) ∷ fgets_lines most rest
fgets_lines-append most line rest h fits =
    fgets_lines_lem most _ ∙ rw (pieces_line most most line rest h fits) (keep_line line _)

pub fgets_lines-nil : (most : ℕ) → fgets_lines most [] ≡ []
unfolding fgets_lines
fgets_lines-nil most = refl
