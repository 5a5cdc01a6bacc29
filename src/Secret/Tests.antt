-- ===== src/Secret/Tests.antt =====
-- The theorems on the environment file at a concrete file.
use cbank_system.Prelude.{◌≡◌, refl, true, List, [], ◌∷◌, some, none, arith}
use cbank_system.Text.{codes, bytes_eq, drop_while}
use cbank_system.Utils.{ltrim}
use cbank_system.Orm.Files.{Files, put_file}
use cbank_system.Secret.{Secret, load_env, get_env}
use cbank_system.Secret.Env.{EnvLine, env_text, env_line_text, get_env-load_env}

abbrev expiry : Secret
expiry = record { name = codes "JWT_EXP"; value = codes "60" }

abbrev lines : List EnvLine
lines = EnvLine.other (codes "# jwt") ∷ EnvLine.entry expiry ∷ []

abbrev disk : Files
unfolding env_text env_line_text
disk = put_file (λ p. none) (codes ".env") (env_text lines)

get_env-load_env_example :
    get_env (load_env (λ n. true) disk (codes ".env") none) (codes "JWT_EXP") ≡ some (codes "60")
unfolding env_text env_line_text bytes_eq ltrim drop_while
get_env-load_env_example =
    get_env-load_env (λ n. true) disk (codes ".env") (EnvLine.other (codes "# jwt") ∷ []) [] expiry
      (λ n. refl)
      (
        (omega arith, omega arith, omega arith),
        ((omega arith, omega arith, (λ e. cc, λ e. cc, refl, refl, omega arith)), tt),
      )
      (tt, tt) refl
