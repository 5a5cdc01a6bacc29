-- ===== src/Secret/Env.antt =====
-- secret/manager.c: `load_env` and `get_env` on a file of lines.
use cbank_system.Prelude.{
  ℕ, zero, suc, ◌+◌, ◌≤◌, ◌<◌, ◌≡◌, ◌≢◌, refl, Bool, true, List, [], ◌∷◌, ◌++◌, append-nil,
  append_assoc, some, none, length, length-append, ◌==◌, arith, inl, inr, Bool-cases, All,
}
use cbank_system.Text.{Bytes, Lacks, strchr, bytes_eq_ne, bytes_eq_refl}
use cbank_system.Text.Laws.{strchr-append}
use cbank_system.Utils.{ltrim}
use cbank_system.Orm.Files.{Files}
use cbank_system.Secret.{
  Secret, Loading, add_secret, put_secret, load_line, load_lines, load_env, find_secret, get_env,
}
use cbank_system.Secret.Lines.{read_line-append}

-- A line of the file: a secret, or a text without '='.
pub data EnvLine : Type 0 where
  entry : Secret → EnvLine
  other : Bytes → EnvLine

unfoldable pub env_line_text : EnvLine → Bytes
env_line_text (EnvLine.entry secret) = secret.name ++ b'=' ∷ secret.value
env_line_text (EnvLine.other text) = text

unfoldable pub env_text : List EnvLine → Bytes
unfolding env_line_text
env_text [] = []
env_text (line ∷ lines) = env_line_text line ++ 10 ∷ env_text lines

-- Neither side of the '=' is empty or begins with a blank.
abbrev pub IsSecret : Secret → Type 0
IsSecret secret =
    (secret.name ≢ [])
    × (secret.value ≢ [])
    × (ltrim secret.name ≡ secret.name)
    × (ltrim secret.value ≡ secret.value)
    × Lacks b'=' secret.name

abbrev pub IsEnvLine : EnvLine → Type 0
IsEnvLine line =
    Lacks 10 (env_line_text line)
    × Lacks 0 (env_line_text line)
    × (elim line [ EnvLine.entry secret ↦ IsSecret secret | EnvLine.other text ↦ Lacks b'=' text ])

unfoldable pub secrets_of : List EnvLine → List Secret
secrets_of [] = []
secrets_of (EnvLine.entry secret ∷ lines) = secret ∷ secrets_of lines
secrets_of (EnvLine.other text ∷ lines) = secrets_of lines

strchr-Lacks : (b : ℕ) (s : Bytes) → Lacks b s → strchr b s ≡ none
unfolding strchr
strchr-Lacks b [] h = refl
strchr-Lacks b (c ∷ s) (hc, h) = ground (arith, strchr-Lacks b s h)

put_secret-add_secret :
    (alloc : ℕ → Bool) (l : Loading) (name value : Bytes)
    → name ≢ []
    → value ≢ []
    → put_secret alloc l name value ≡ add_secret alloc l (record { name = name; value = value })
unfolding put_secret
put_secret-add_secret alloc l [] value h k = absurd (h refl)
put_secret-add_secret alloc l (c ∷ name) [] h k = absurd (k refl)
put_secret-add_secret alloc l (c ∷ name) (d ∷ value) h k = refl

add_secret_adds :
    (alloc : ℕ → Bool) (l : Loading) (secret : Secret)
    → ((n : ℕ) → alloc n ≡ true)
    → (l' : Loading) × (add_secret alloc l secret ≡ some l')
      × (l'.secrets ≡ l.secrets ++ secret ∷ [])
unfolding add_secret
add_secret_adds alloc l secret h =
    elim (Bool-cases (length l.secrets == l.secret_trigger_realloc)) [
      | inl e ↦ rw (e, h (l.secret_alloc_size + 20)) (_, refl, refl)
      | inr e ↦ rw e (_, refl, refl)
    ]

-- One line of the file.
load_line-EnvLine :
    (alloc : ℕ → Bool) (l : Loading) (line : EnvLine)
    → ((n : ℕ) → alloc n ≡ true)
    → IsEnvLine line
    → (l' : Loading) × (load_line alloc l (env_line_text line) ≡ some l')
      × (l'.secrets ≡ l.secrets ++ secrets_of (line ∷ []))
unfolding load_line env_line_text secrets_of
load_line-EnvLine alloc l (EnvLine.other text) h (nl, clean, lacks) =
    rw (load_line, strchr-Lacks b'=' text lacks, append-nil l.secrets) (l, refl, refl)
load_line-EnvLine alloc l (EnvLine.entry secret) h (nl, clean, (name, value, left, right, lacks)) =
    rw
      (
        load_line,
        strchr-append b'=' secret.name secret.value lacks,
        left,
        right,
        put_secret-add_secret alloc l secret.name secret.value name value,
      )
      (add_secret_adds alloc l secret h)

secrets_of_cons :
    (line : EnvLine) (lines : List EnvLine)
    → secrets_of (line ∷ lines) ≡ secrets_of (line ∷ []) ++ secrets_of lines
unfolding secrets_of
secrets_of_cons (EnvLine.entry secret) lines = refl
secrets_of_cons (EnvLine.other text) lines = refl

load_lines-env_text :
    (fuel : ℕ) (alloc : ℕ → Bool) (l : Loading) (lines : List EnvLine)
    → ((n : ℕ) → alloc n ≡ true)
    → All IsEnvLine lines
    → length lines < fuel
    → load_lines fuel alloc l (env_text lines) ≡ l.secrets ++ secrets_of lines
unfolding load_lines env_text
load_lines-env_text zero alloc l lines h k fuel = absurd (omega arith)
load_lines-env_text (suc fuel) alloc l [] h k enough =
    unfold secrets_of in rw (append-nil l.secrets) refl
load_lines-env_text (suc fuel) alloc l (line ∷ lines) h (hl, k) enough =
    let (l', step, more) = load_line-EnvLine alloc l line h hl in
    rw
      (
        load_lines,
        read_line-append (env_line_text line) (env_text lines) hl.0 hl.1,
        step,
        load_lines-env_text fuel alloc l' lines h k (omega arith),
        more,
        append_assoc l.secrets (secrets_of (line ∷ [])) (secrets_of lines),
        ← secrets_of_cons line lines,
      )
      refl

length-env_text : (lines : List EnvLine) → length lines ≤ length (env_text lines)
unfolding env_text
length-env_text [] = omega arith
length-env_text (line ∷ lines) =
    rw (length-append (env_line_text line) (10 ∷ env_text lines))
      (omega (arith, length-env_text lines))

-- What loading a file of such lines leaves in memory.
load_env-env_text :
    (alloc : ℕ → Bool) (files : Files) (path : Bytes) (lines : List EnvLine)
    → ((n : ℕ) → alloc n ≡ true)
    → All IsEnvLine lines
    → files path ≡ some (env_text lines)
    → load_env alloc files path none ≡ some (secrets_of lines)
unfolding load_env
load_env-env_text alloc files path lines h k e =
    rw
      (
        load_env,
        e,
        h 20,
        load_lines-env_text (suc (length (env_text lines))) alloc
            (record { secret_alloc_size = 20; secret_trigger_realloc = 19; secrets = [] }) lines h k
            (omega (arith, length-env_text lines)),
      )
      refl

-- The secrets in front of which the name does not occur.
abbrev pub Names : Bytes → EnvLine → Type 0
Names name line = elim line [
  | EnvLine.entry secret ↦ secret.name ≢ name
  | EnvLine.other text ↦ Unit {0}
]

find_secret_skip :
    (name : Bytes) (front back : List EnvLine)
    → All (Names name) front
    → find_secret (secrets_of (front ++ back)) name ≡ find_secret (secrets_of back) name
unfolding secrets_of find_secret
find_secret_skip name [] back h = refl
find_secret_skip name (EnvLine.other text ∷ front) back (hd, h) = find_secret_skip name front back h
find_secret_skip name (EnvLine.entry secret ∷ front) back (hd, h) =
    rw (bytes_eq_ne name secret.name hd) (find_secret_skip name front back h)

-- Where every allocation is granted and nothing was loaded before, a file is loaded whose lines hold
-- no zero byte and are each "name=value", neither side empty or with a blank in front and no '=' in
-- the name, or a text without '='. The first entry of a name then gives its value.
pub get_env-load_env :
    (alloc : ℕ → Bool) (files : Files) (path : Bytes) (front back : List EnvLine) (secret : Secret)
    → ((n : ℕ) → alloc n ≡ true)
    → All IsEnvLine (front ++ EnvLine.entry secret ∷ back)
    → All (Names secret.name) front
    → files path ≡ some (env_text (front ++ EnvLine.entry secret ∷ back))
    → get_env (load_env alloc files path none) secret.name ≡ some secret.value
unfolding get_env
get_env-load_env alloc files path front back secret h k first e =
    rw
      (
        load_env-env_text alloc files path (front ++ EnvLine.entry secret ∷ back) h k e,
        get_env,
        find_secret_skip secret.name front (EnvLine.entry secret ∷ back) first,
      )
      (unfold secrets_of find_secret in rw (bytes_eq_refl secret.name) refl)

-- A name that no line of the file gives has no value.
pub get_env_missing :
    (alloc : ℕ → Bool) (files : Files) (path name : Bytes) (lines : List EnvLine)
    → ((n : ℕ) → alloc n ≡ true)
    → All IsEnvLine lines
    → All (Names name) lines
    → files path ≡ some (env_text lines)
    → get_env (load_env alloc files path none) name ≡ none
unfolding get_env
get_env_missing alloc files path name lines h k absent e =
    rw (load_env-env_text alloc files path lines h k e, get_env)
      (let skip = find_secret_skip name lines [] absent in
        unfold secrets_of find_secret in rw (append-nil lines) at skip)
