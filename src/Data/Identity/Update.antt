-- ===== src/Data/Identity/Update.antt =====
-- data/store.c: `updt_next_identity` on a tracker of stores.
use cbank_system.Prelude.{
  ℕ, suc, ◌+◌, ◌≤◌, ◌≡◌, refl, ap, true, List, [], ◌∷◌, ◌++◌, map, append_assoc, if◌then◌else◌, All,
  arith, Bool-cases, inl, inr, le→leb,
}
use cbank_system.Prelude.Ret.{ok}
use cbank_system.Prelude.Int.{pos}
use cbank_system.Text.{
  Bytes, codes, bytes_eq, strstr, starts_with, print_nat, print_int, fgets_lines,
  fgets_lines-append, fgets_lines-nil,
}
use cbank_system.Text.Laws.{strcspn_cut-append}
use cbank_system.Orm.Files.{Files, put_file, contents_of}
use cbank_system.Orm.Insert.{row_text}
use cbank_system.Data.Fields.{has_fields, to_int, int_max}
use cbank_system.Data.Fields.Search.{
  HasAt, skips, tail_text, scan_field-row_text, scan_int_field-row_text, is_found-row_text,
}
use cbank_system.Data.Identity.{
  db_id_tracker_section, store_key, cur_id_key, identity_line, next_id, updt_line, updt_lines,
  updt_next_identity,
}
use cbank_system.Data.Identity.Tracker.{
  Identity, line_end, identity_row, tracker_text, IsIdentity, atol-line_end, identity_row-IsPlain,
  identity_row-Lacks, length-identity_row,
}

-- The number of the store goes up by one, and every line is closed.
unfoldable pub bump : Bytes → Identity → Identity
bump store_name e = record {
  name = e.name;
  cur_id = if bytes_eq e.name store_name then suc e.cur_id else e.cur_id;
  closed = true;
}

store_at : (e : Identity) → HasAt (codes "store") e.name (identity_row e) 0
store_at e = (refl, refl)

cur_id_at :
    (e : Identity)
    → HasAt (codes "cur_id") (print_nat e.cur_id ++ line_end e.closed) (identity_row e) 1
unfolding skips strstr starts_with
cur_id_at e = (refl, refl)

-- The line that is written for an entry.
identity_line-row_text :
    (name : Bytes) (n : ℕ)
    → identity_line name (pos n)
      ≡ row_text (identity_row (record { name = name; cur_id = n; closed = true })) ++ 10 ∷ []
unfolding identity_line row_text print_int
identity_line-row_text name n =
    rw (append_assoc name _ (10 ∷ []), append_assoc (print_nat n) (b';' ∷ []) (10 ∷ [])) refl

to_int-pos : (n : ℕ) → n ≤ int_max → to_int (pos n) ≡ ok (pos n)
unfolding to_int
to_int-pos n h = rw (le→leb n int_max h) refl

next_id-bump :
    (store_name : Bytes) (e : Identity)
    → IsIdentity e
    → next_id (bytes_eq e.name store_name) (pos e.cur_id) ≡ ok (pos (bump store_name e).cur_id)
unfolding next_id bump
next_id-bump store_name e (filled, equals, semi, nl, short, small) =
    elim (Bool-cases (bytes_eq e.name store_name)) [
      | inl f ↦ rw (f, to_int-pos (1 + e.cur_id) (omega arith)) (ap (λ m. ok (pos m)) (omega arith))
      | inr f ↦ rw f refl
    ]

identity-has_fields :
    (e : Identity)
    → IsIdentity e
    → has_fields (store_key ∷ cur_id_key ∷ []) (row_text (identity_row e)) ≡ true
unfolding has_fields
identity-has_fields e h =
    rw
      (
        is_found-row_text (codes "store") e.name (identity_row e) 0 (omega arith) (omega arith)
            (identity_row-IsPlain e h) (store_at e),
        is_found-row_text (codes "cur_id") (print_nat e.cur_id ++ line_end e.closed)
            (identity_row e) 1 (omega arith) (omega arith) (identity_row-IsPlain e h) (cur_id_at e),
      )
      refl

-- One line of the tracker.
updt_line-identity_row :
    (store_name : Bytes) (e : Identity)
    → IsIdentity e
    → updt_line store_name (row_text (identity_row e))
      ≡ ok (row_text (identity_row (bump store_name e)) ++ 10 ∷ [])
unfolding updt_line bump
updt_line-identity_row store_name e h =
    let (filled, equals, semi, nl, short, small) = h in
    rw
      (
        identity-has_fields e h,
        scan_field-row_text (codes "store") e.name (identity_row e) 49 0 (omega arith) (omega arith)
            (identity_row-IsPlain e h) (store_at e) filled semi short,
        scan_int_field-row_text (codes "cur_id") (print_nat e.cur_id ++ line_end e.closed)
            (identity_row e) 1 (omega arith) (omega arith) (identity_row-IsPlain e h) (cur_id_at e),
      )
      (unfold tail_text in
        rw
          (
            atol-line_end e.cur_id e.closed,
            to_int-pos e.cur_id (omega arith),
            next_id-bump store_name e h,
          )
          (unfold bump in ap ok (identity_line-row_text e.name _)))

updt_lines-tracker_text :
    (store_name : Bytes) (entries : List Identity)
    → All IsIdentity entries
    → updt_lines store_name (fgets_lines 255 (tracker_text entries))
      ≡ ok (tracker_text (map (bump store_name) entries))
unfolding updt_lines tracker_text
updt_lines-tracker_text store_name [] h = rw (fgets_lines-nil 255) refl
updt_lines-tracker_text store_name (e ∷ entries) (he, h) =
    let line = row_text (identity_row e) in
    let nl = identity_row-Lacks e he in
    rw
      (
        fgets_lines-append 255 line (tracker_text entries) nl (length-identity_row e he),
        updt_lines,
        strcspn_cut-append 10 line [] nl,
        updt_line-identity_row store_name e he,
        updt_lines-tracker_text store_name entries h,
      )
      (ap ok (append_assoc (row_text (identity_row (bump store_name e))) (10 ∷ []) _))

-- On a tracker of stores with their numbers, `updt_next_identity` returns, and changes the tracker
-- alone: the number of every entry of the store goes up by one, the other stores keep theirs, and
-- the entries keep their order.
pub updt_next_identity-tracker_text :
    (files : Files) (store_name : Bytes) (entries : List Identity)
    → contents_of files db_id_tracker_section ≡ tracker_text entries
    → All IsIdentity entries
    → updt_next_identity files store_name
      ≡ ok (put_file files db_id_tracker_section (tracker_text (map (bump store_name) entries)))
unfolding updt_next_identity
updt_next_identity-tracker_text files store_name entries at h =
    rw (at, updt_lines-tracker_text store_name entries h) refl
