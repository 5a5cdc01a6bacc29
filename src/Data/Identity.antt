-- ===== src/Data/Identity.antt =====
-- The identity tracker: its part of data/store.c.
-- The temporary file is taken to open; what is written to it replaces the tracker.
pub mod Tracker
pub mod Entries
pub mod Query
pub mod Update
pub mod Next
use cbank_system.Prelude.{
  ℕ, suc, ◌+◌, Bool, true, false, List, [], ◌∷◌, ◌++◌, take, ltb, ◌-◌, if◌then◌else◌,
}
use cbank_system.Prelude.Ret.{Ret, ok, fault, ◌>>=◌}
use cbank_system.Prelude.Int.{ℤ, pos, add_ℕ}
use cbank_system.Text.{Bytes, codes, bytes_eq, strcspn_cut, fgets_lines, print_int}
use cbank_system.Orm.Files.{Files, put_file, contents_of}
use cbank_system.Orm.Filtering.{Doubles}
use cbank_system.Orm.Select.{new_select_query, qselect, qfrom, qwhere}
use cbank_system.Orm.Select.Scan.{select_executor, get_row_col_value}
use cbank_system.Data.Fields.{has_fields, scan_field, scan_int_field, to_int}

abbrev pub db_id_tracker_section : Bytes
db_id_tracker_section = codes "./stores/id_tracker_db"

abbrev pub store_key : Bytes
store_key = codes "store="

abbrev pub cur_id_key : Bytes
cur_id_key = codes "cur_id="

-- "store=%s;cur_id=%d;\n"
unfoldable pub identity_line : Bytes → ℤ → Bytes
identity_line name cur_id =
    store_key ++ (name ++ b';' ∷ (cur_id_key ++ (print_int cur_id ++ b';' ∷ 10 ∷ [])))

-- An identity counts up within `int`.
unfoldable pub next_id : Bool → ℤ → Ret ℤ
unfolding to_int
next_id true cur_id = to_int (add_ℕ 1 cur_id)
next_id false cur_id = ok cur_id

-- What is written for a line; without one of the keys that is the line, which has lost its newline.
unfoldable pub updt_line : Bytes → Bytes → Ret Bytes
unfolding identity_line next_id
updt_line store_name line_buf =
    if has_fields (store_key ∷ cur_id_key ∷ []) line_buf
    then (do
      name ← scan_field store_key 49 line_buf
      cur_id ← scan_int_field cur_id_key line_buf
      next ← next_id (bytes_eq name store_name) cur_id
      ok (identity_line name next))
    else ok line_buf

-- The loop over the lines, and what it writes.
unfoldable pub updt_lines : Bytes → List Bytes → Ret Bytes
unfolding updt_line
updt_lines store_name [] = ok []
updt_lines store_name (piece ∷ pieces) = do
  written ← updt_line store_name (strcspn_cut 10 piece)
  later ← updt_lines store_name pieces
  ok (written ++ later)

unfoldable pub updt_next_identity : Files → Bytes → Ret Files
unfolding updt_lines
updt_next_identity files store_name = do
  written ← updt_lines store_name (fgets_lines 255 (contents_of files db_id_tracker_section))
  ok (put_file files db_id_tracker_section written)

-- The identity of the first row, cut to a buffer of `buf_size` bytes.
unfoldable pub get_next_identity : Doubles → Files → Bytes → ℕ → Ret Bytes
get_next_identity d files store_name buf_size = do
  q ← qselect new_select_query (codes "cur_id")
  result ←
      select_executor d
        (qwhere (qfrom q db_id_tracker_section) (codes "store") (codes "=") store_name) files
  id ← get_row_col_value result 0 (codes "cur_id")
  ok (take (buf_size - 1) id)
