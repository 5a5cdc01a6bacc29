-- ===== src/Secret/Load.antt =====
-- secret/manager.c: the block of secrets, and the secrets that a file of lines gives.
use cbank_system.Prelude.{
  ℕ, ◌+◌, ◌-◌, ◌≤◌, ◌≡◌, subst, Bool, true, false, [], ◌∷◌, ◌++◌, some, length, length-append, ◌==◌,
  arith, inl, inr, Bool-cases, Option-cases,
}
use cbank_system.Text.{Bytes, strchr}
use cbank_system.Utils.{ltrim}
use cbank_system.Secret.{Secret, Loading, add_secret, put_secret, load_line}

-- The entries fit the block, and one entry more does.
abbrev pub IsLoading : Loading → Type 0
IsLoading l =
    (length l.secrets ≤ l.secret_trigger_realloc)
    × (l.secret_trigger_realloc + 1 ≡ l.secret_alloc_size)

keep_IsLoading : (l l' : Loading) → IsLoading l → some l ≡ some l' → IsLoading l'
keep_IsLoading l l' h e = subst IsLoading (cc) h

IsLoading-grown :
    (l : Loading) (secret : Secret)
    → IsLoading l
    → (length l.secrets == l.secret_trigger_realloc) ≡ true
    → IsLoading (record {
      secret_alloc_size = l.secret_alloc_size + 20;
      secret_trigger_realloc = l.secret_alloc_size + 20 - 1;
      secrets = l.secrets ++ secret ∷ [];
    })
IsLoading-grown l secret h e =
    rw (length-append l.secrets (secret ∷ [])) (ground arith, ground arith)

IsLoading-same :
    (l : Loading) (secret : Secret)
    → IsLoading l
    → (length l.secrets == l.secret_trigger_realloc) ≡ false
    → IsLoading (record {
      secret_alloc_size = l.secret_alloc_size;
      secret_trigger_realloc = l.secret_trigger_realloc;
      secrets = l.secrets ++ secret ∷ [];
    })
IsLoading-same l secret h e =
    rw (length-append l.secrets (secret ∷ [])) (ground arith, ground arith)

add_secret-IsLoading :
    (alloc : ℕ → Bool) (l : Loading) (secret : Secret) (l' : Loading)
    → IsLoading l
    → add_secret alloc l secret ≡ some l'
    → IsLoading l'
unfolding add_secret
add_secret-IsLoading alloc l secret l' h e =
    elim (Bool-cases (length l.secrets == l.secret_trigger_realloc)) [
      | inl f ↦ elim (Bool-cases (alloc (l.secret_alloc_size + 20))) [
        | inl g ↦ keep_IsLoading _ l' (IsLoading-grown l secret h f) (rw (f, g, add_secret) at e)
        | inr g ↦ let e' = rw (f, g, add_secret) at e in cc
      ]
      | inr f ↦ keep_IsLoading _ l' (IsLoading-same l secret h f) (rw (f, add_secret) at e)
    ]

put_secret-IsLoading :
    (alloc : ℕ → Bool) (l : Loading) (name value : Bytes) (l' : Loading)
    → IsLoading l
    → put_secret alloc l name value ≡ some l'
    → IsLoading l'
unfolding put_secret
put_secret-IsLoading alloc l [] value l' h e = keep_IsLoading l l' h e
put_secret-IsLoading alloc l (c ∷ name) [] l' h e = keep_IsLoading l l' h e
put_secret-IsLoading alloc l (c ∷ name) (d ∷ value) l' h e =
    add_secret-IsLoading alloc l (record { name = c ∷ name; value = d ∷ value }) l' h e

-- A line of the file leaves the entries inside the block, with room for one more.
pub load_line-IsLoading :
    (alloc : ℕ → Bool) (l : Loading) (line : Bytes) (l' : Loading)
    → IsLoading l
    → load_line alloc l line ≡ some l'
    → IsLoading l'
unfolding load_line
load_line-IsLoading alloc l line l' h e = elim (Option-cases (strchr b'=' line)) [
  | inl f ↦ keep_IsLoading l l' h (rw (f, load_line) at e)
  | inr ((name, value), f) ↦
      let e' = rw (f, load_line) at e in
      put_secret-IsLoading alloc l (ltrim name) (ltrim value) l' h e'
]
