-- ===== src/Data/Fields/Search.antt =====
-- Looking for "key=" in the text of a row, and scanning the value behind it.
use cbank_system.Prelude.{
  ℕ, zero, suc, ◌≤◌, ◌≡◌, ◌≢◌, refl, ap, ◌∙◌, Bool, true, false, not, ◌&&◌, List, [], ◌∷◌, ◌++◌,
  some, append_assoc, length, take, drop, get_elem?, all, All, arith, Bool-cases, inl, inr, ◌==◌,
  take_of_le,
}
use cbank_system.Prelude.Ret.{ok}
use cbank_system.Text.{Bytes, Lacks, starts_with, strstr, take_while, atol}
use cbank_system.Text.Laws.{take_while-Lacks, take_while-Lacks_end, starts_with-append, strstr_step}
use cbank_system.Orm.Insert.{row_text}
use cbank_system.Orm.Table.{Row}
use cbank_system.Data.Fields.{
  is_found, non_empty, scan_set, behind, scan_field, scan_int_field, to_int,
}

-- "key=" does not occur in "k=".
unfoldable pub skips : Bytes → Bytes → Bool
unfolding strstr starts_with
skips key k = not (is_found (strstr (k ++ b'=' ∷ []) (key ++ b'=' ∷ [])))

-- No '=' stands in a name or a value.
abbrev pub IsPlain : List ℕ × List ℕ → Type 0
IsPlain (key, value) = Lacks b'=' key × Lacks b'=' value

strstr_start : (s needle : Bytes) → starts_with needle s ≡ true → strstr s needle ≡ some s
unfolding strstr
strstr_start [] needle e = rw e refl
strstr_start (c ∷ s) needle e = rw e refl

-- Whether "key=" stands at the front of a text is settled by its first '='.
starts_with-equals :
    (key s rest : Bytes)
    → Lacks b'=' key
    → Lacks b'=' s
    → starts_with (key ++ b'=' ∷ []) (s ++ b'=' ∷ rest)
      ≡ starts_with (key ++ b'=' ∷ []) (s ++ b'=' ∷ [])
unfolding starts_with
starts_with-equals [] [] rest h k = refl
starts_with-equals [] (d ∷ s) rest h (hd, k) = ground arith
starts_with-equals (c ∷ key) [] rest (hc, h) k = ground arith
starts_with-equals (c ∷ key) (d ∷ s) rest (hc, h) (hd, k) =
    ap (λ b. (c == d) && b) (starts_with-equals key s rest h k)

-- It does not begin inside a value.
starts_with-value :
    (key s rest : Bytes)
    → Lacks b';' key
    → Lacks b'=' s
    → starts_with (key ++ b'=' ∷ []) (s ++ b';' ∷ rest) ≡ false
unfolding starts_with
starts_with-value [] [] rest h k = refl
starts_with-value [] (d ∷ s) rest h (hd, k) = ground arith
starts_with-value (c ∷ key) [] rest (hc, h) k = ground arith
starts_with-value (c ∷ key) (d ∷ s) rest (hc, h) (hd, k) =
    ground (arith, starts_with-value key s rest h k)

strstr-value :
    (key s rest : Bytes)
    → Lacks b';' key
    → Lacks b'=' s
    → strstr (s ++ b';' ∷ rest) (key ++ b'=' ∷ []) ≡ strstr rest (key ++ b'=' ∷ [])
strstr-value key [] rest h k =
    strstr_step (key ++ b'=' ∷ []) b';' rest (starts_with-value key [] rest h tt)
strstr-value key (c ∷ s) rest h (hc, k) =
    strstr_step (key ++ b'=' ∷ []) c (s ++ b';' ∷ rest)
      (starts_with-value key (c ∷ s) rest h (hc, k))
    ∙ strstr-value key s rest h k

not_found_cons :
    (c : ℕ) (s needle : Bytes)
    → not (is_found (strstr (c ∷ s) needle)) ≡ true
    → (starts_with needle (c ∷ s) ≡ false) × (not (is_found (strstr s needle)) ≡ true)
unfolding strstr
not_found_cons c s needle e = elim (Bool-cases (starts_with needle (c ∷ s))) [
  | inl f ↦ let e' = rw (f, strstr) at e in cc
  | inr f ↦ (f, rw (f, strstr) at e)
]

-- A name in which the key is not found is passed over with its '='.
strstr-name :
    (key s rest : Bytes)
    → Lacks b'=' key
    → Lacks b'=' s
    → skips key s ≡ true
    → strstr (s ++ b'=' ∷ rest) (key ++ b'=' ∷ []) ≡ strstr rest (key ++ b'=' ∷ [])
unfolding skips
strstr-name key [] rest h k e =
    strstr_step (key ++ b'=' ∷ []) b'=' rest
      (starts_with-equals key [] rest h tt ∙ (not_found_cons b'=' [] (key ++ b'=' ∷ []) e).0)
strstr-name key (c ∷ s) rest h (hc, k) e =
    let (here, later) = not_found_cons c (s ++ b'=' ∷ []) (key ++ b'=' ∷ []) e in
    strstr_step (key ++ b'=' ∷ []) c (s ++ b'=' ∷ rest)
      (starts_with-equals key (c ∷ s) rest h (hc, k) ∙ here)
    ∙ strstr-name key s rest h k later

-- What stands behind the '=' of a pair.
unfoldable pub tail_text : Bytes → Row → Bytes
unfolding row_text
tail_text value [] = value
tail_text value (p ∷ row) = value ++ b';' ∷ row_text (p ∷ row)

row_text-tail_text :
    (key value : Bytes) (row : Row)
    → row_text ((key, value) ∷ row) ≡ key ++ b'=' ∷ tail_text value row
unfolding row_text tail_text
row_text-tail_text key value [] = refl
row_text-tail_text key value (p ∷ row) = refl

-- The text of a row whose first pair is not the one that is looked for.
strstr-row_text :
    (key : Bytes) (pair next : List ℕ × List ℕ) (row : Row)
    → Lacks b'=' key
    → Lacks b';' key
    → IsPlain pair
    → skips key pair.0 ≡ true
    → strstr (row_text (pair ∷ next ∷ row)) (key ++ b'=' ∷ [])
      ≡ strstr (row_text (next ∷ row)) (key ++ b'=' ∷ [])
unfolding row_text
strstr-row_text key (k, v) next row equals semi (ke, ve) skip =
    strstr-name key k (v ++ b';' ∷ row_text (next ∷ row)) equals ke skip
    ∙ strstr-value key v (row_text (next ∷ row)) semi ve

-- The pair of a key, and no pair in front of it whose name ends in the key.
abbrev pub HasAt : Bytes → Bytes → Row → ℕ → Type 0
HasAt key value row i =
    (get_elem? row i ≡ some (key, value)) × (all (λ p. skips key p.0) (take i row) ≡ true)

&&-true : (a b : Bool) → (a && b) ≡ true → (a ≡ true) × (b ≡ true)
&&-true true b e = (refl, e)
&&-true false b e = cc

-- The search ends at the pair.
strstr-HasAt :
    (key value : Bytes) (row : Row) (i : ℕ)
    → Lacks b'=' key
    → Lacks b';' key
    → All IsPlain row
    → HasAt key value row i
    → strstr (row_text row) (key ++ b'=' ∷ [])
      ≡ some (key ++ b'=' ∷ tail_text value (drop (suc i) row))
strstr-HasAt key value [] i equals semi plain (at, skip) = cc
strstr-HasAt key value (pair ∷ row) zero equals semi plain (at, skip) =
    let e : pair ≡ (key, value) = cc in
    rw (e, row_text-tail_text key value row)
      (strstr_start (key ++ b'=' ∷ tail_text value row) (key ++ b'=' ∷ []) (
        let f = starts_with-append (key ++ b'=' ∷ []) (tail_text value row) in
        rw (append_assoc key (b'=' ∷ []) (tail_text value row)) at f))
strstr-HasAt key value (pair ∷ []) (suc i) equals semi plain (at, skip) = cc
strstr-HasAt key value (pair ∷ next ∷ row) (suc i) equals semi (hp, plain) (at, skip) =
    let (here, later) = &&-true (skips key pair.0) _ skip in
    strstr-row_text key pair next row equals semi hp here
    ∙ strstr-HasAt key value (next ∷ row) i equals semi plain (at, later)

drop-append : (front rest : Bytes) → drop (length front) (front ++ rest) ≡ rest
drop-append [] rest = refl
drop-append (c ∷ front) rest = drop-append front rest

behind-HasAt :
    (key value : Bytes) (row : Row) (i : ℕ)
    → Lacks b'=' key
    → Lacks b';' key
    → All IsPlain row
    → HasAt key value row i
    → behind (key ++ b'=' ∷ []) (row_text row) ≡ ok (tail_text value (drop (suc i) row))
unfolding behind
behind-HasAt key value row i equals semi plain at =
    rw (strstr-HasAt key value row i equals semi plain at, behind)
      (let f = drop-append (key ++ b'=' ∷ []) (tail_text value (drop (suc i) row)) in
        ap ok (rw (append_assoc key (b'=' ∷ []) (tail_text value (drop (suc i) row))) at f))

-- The scan stops in front of the next ';'.
take_while-tail_text :
    (value : Bytes) (row : Row)
    → Lacks b';' value
    → take_while (λ c. not (c == b';')) (tail_text value row) ≡ value
unfolding tail_text
take_while-tail_text value [] h = take_while-Lacks_end b';' value h
take_while-tail_text value (p ∷ row) h = take_while-Lacks b';' value (row_text (p ∷ row)) h

non_empty_ok : (s : Bytes) → s ≢ [] → non_empty s ≡ ok s
unfolding non_empty
non_empty_ok [] h = absurd (h refl)
non_empty_ok (c ∷ s) h = refl

-- `sscanf` reads the value of the pair.
pub scan_field-row_text :
    (key value : Bytes) (row : Row) (width i : ℕ)
    → Lacks b'=' key
    → Lacks b';' key
    → All IsPlain row
    → HasAt key value row i
    → value ≢ []
    → Lacks b';' value
    → length value ≤ width
    → scan_field (key ++ b'=' ∷ []) width (row_text row) ≡ ok value
unfolding scan_field scan_set
scan_field-row_text key value row width i equals semi plain at filled lacks fits =
    rw
      (
        behind-HasAt key value row i equals semi plain at,
        take_while-tail_text value (drop (suc i) row) lacks,
        take_of_le width value fits,
      )
      (non_empty_ok value filled)

pub is_found-row_text :
    (key value : Bytes) (row : Row) (i : ℕ)
    → Lacks b'=' key
    → Lacks b';' key
    → All IsPlain row
    → HasAt key value row i
    → is_found (strstr (row_text row) (key ++ b'=' ∷ [])) ≡ true
is_found-row_text key value row i equals semi plain at =
    rw (strstr-HasAt key value row i equals semi plain at) refl

pub scan_int_field-row_text :
    (key value : Bytes) (row : Row) (i : ℕ)
    → Lacks b'=' key
    → Lacks b';' key
    → All IsPlain row
    → HasAt key value row i
    → scan_int_field (key ++ b'=' ∷ []) (row_text row)
      ≡ to_int (atol (tail_text value (drop (suc i) row)))
unfolding scan_int_field
scan_int_field-row_text key value row i equals semi plain at =
    rw (behind-HasAt key value row i equals semi plain at) refl
