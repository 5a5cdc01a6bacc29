-- ===== src/Orm/Files.antt =====
-- The file system under the stores.
use cbank_system.Prelude.{Option, none, some, List, [], ℕ, ◌++◌, if◌then◌else◌}
use cbank_system.Text.{Bytes, bytes_eq}

abbrev pub Files : Type 0
Files = Bytes → Option (List ℕ)

-- The file at `path` gets new contents.
abbrev pub put_file : Files → Bytes → Bytes → Files
put_file files path contents p = if bytes_eq path p then some contents else files p

-- `fopen(path, "a+")` makes the file where there is none.
abbrev pub contents_of : Files → Bytes → Bytes
contents_of files path = elim (files path) [ none ↦ [] | some contents ↦ contents ]

-- What is written through a stream opened with "a+" goes to the end.
abbrev pub append_file : Files → Bytes → Bytes → Files
append_file files path written = put_file files path (contents_of files path ++ written)
