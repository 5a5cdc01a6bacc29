-- ===== src/Secret.antt =====
-- secret/manager.c and `read_line` of utils.c: the environment file and the secrets it holds.
-- The stream `f` is what is left to read of the file. `alloc size` tells whether the allocator has
-- room for `size` more or regrown entries; blocks for single strings are taken to be given.
pub mod Lines
pub mod Load
pub mod Env
mod Tests
use cbank_system.Prelude.{
  ℕ, zero, suc, ◌+◌, ◌-◌, ◌*◌, Bool, true, false, List, [], ◌∷◌, ◌++◌, Option, none, some, length,
  leb, ◌==◌, if◌then◌else◌,
}
use cbank_system.Text.{Bytes, bytes_eq, strchr, strcspn_cut}
use cbank_system.Utils.{ltrim}
use cbank_system.Orm.Files.{Files}

-- The loop of `read_line`: the line, the size of its buffer, and the rest of the stream behind the
-- newline. The buffer is doubled when it is full.
pub record LineBuf : Type 0 where
  pub buf : Bytes
  pub size : ℕ
  pub rest : Bytes

unfoldable pub read_chars : Bytes → ℕ → Bytes → LineBuf
read_chars buf size [] = record { buf = buf; size = size; rest = [] }
read_chars buf size (c ∷ f) =
    if c == 10
    then record { buf = buf; size = size; rest = f }
    else read_chars (buf ++ c ∷ []) (if leb size (length buf + 1) then size * 2 else size) f

-- No line is left at the end of the file. A line ends at its first zero byte for its readers.
unfoldable pub read_line : Bytes → Option (List ℕ × List ℕ)
unfolding read_chars
read_line [] = none
read_line (c ∷ f) = let line = read_chars [] 128 (c ∷ f) in some (strcspn_cut 0 line.buf, line.rest)

pub record Secret : Type 0 where
  pub name : Bytes
  pub value : Bytes

-- `g_secrets`: none is the null pointer.
abbrev pub Secrets : Type 0
Secrets = Option (List Secret)

-- `secret_alloc_size` entries are allocated, and the block grows at `secret_trigger_realloc`.
pub record Loading : Type 0 where
  pub secret_alloc_size : ℕ
  pub secret_trigger_realloc : ℕ
  pub secrets : List Secret

-- An entry behind the others, in a block that grows by 20. None where `realloc` fails.
unfoldable pub add_secret : (ℕ → Bool) → Loading → Secret → Option Loading
add_secret alloc l secret =
    if length l.secrets == l.secret_trigger_realloc
    then (if alloc (l.secret_alloc_size + 20)
        then some (record {
          secret_alloc_size = l.secret_alloc_size + 20;
          secret_trigger_realloc = l.secret_alloc_size + 20 - 1;
          secrets = l.secrets ++ secret ∷ [];
        })
        else none)
    else some (record {
      secret_alloc_size = l.secret_alloc_size;
      secret_trigger_realloc = l.secret_trigger_realloc;
      secrets = l.secrets ++ secret ∷ [];
    })

-- Both sides of the '=' must have a character.
unfoldable pub put_secret : (ℕ → Bool) → Loading → Bytes → Bytes → Option Loading
unfolding add_secret
put_secret alloc l [] value = some l
put_secret alloc l (c ∷ name) [] = some l
put_secret alloc l (c ∷ name) (d ∷ value) =
    add_secret alloc l (record { name = c ∷ name; value = d ∷ value })

-- One line; without '=' it is passed over.
unfoldable pub load_line : (ℕ → Bool) → Loading → Bytes → Option Loading
unfolding put_secret ltrim
load_line alloc l line = elim (strchr b'=' line) [
  | none ↦ some l
  | some (name, value) ↦ put_secret alloc l (ltrim name) (ltrim value)
]

-- `while (true)` over the lines, on fuel. A file has fewer lines than bytes and one more. Where the
-- block cannot grow, the number of secrets is set to zero.
unfoldable pub load_lines : ℕ → (ℕ → Bool) → Loading → Bytes → List Secret
unfolding read_line load_line
load_lines zero alloc l f = l.secrets
load_lines (suc fuel) alloc l f = elim (read_line f) [
  | none ↦ l.secrets
  | some (line, rest) ↦ elim (load_line alloc l line) [
    | none ↦ []
    | some l' ↦ load_lines fuel alloc l' rest
  ]
]

unfoldable pub load_env : (ℕ → Bool) → Files → Bytes → Secrets → Secrets
unfolding load_lines
load_env alloc files path (some secrets) = some secrets
load_env alloc files path none = elim (files path) [
  | none ↦ none
  | some f ↦
      (if alloc 20
        then some (
            load_lines (suc (length f)) alloc
              (record { secret_alloc_size = 20; secret_trigger_realloc = 19; secrets = [] }) f)
        else none)
]

unfoldable pub find_secret : List Secret → Bytes → Option Bytes
find_secret [] name = none
find_secret (secret ∷ secrets) name =
    let later = find_secret secrets name in
    if bytes_eq name secret.name then some secret.value else later

unfoldable pub get_env : Secrets → Bytes → Option Bytes
unfolding find_secret
get_env none name = none
get_env (some secrets) name = find_secret secrets name
