-- ===== src/Prelude/Ret.antt =====
-- What a C function that may fail hands back.
-- `null` is the null pointer (or the error code) that the caller tests; `fault` is behaviour that C
-- leaves undefined: a null pointer followed, or an access outside an object.
use mathlib.Core.Path.{◌≡◌, refl}
use mathlib.Core.Bool.{Bool, true, false}
use mathlib.Core.Option.{Option, none, some}

pub data Ret {ℓ} (A : Type ℓ) : Type ℓ where
  ok : A → Ret A
  null : Ret A
  fault : Ret A

infixl 5 ◌>>=◌
abbrev pub ◌>>=◌ {ℓ κ} : {A : Type ℓ} {B : Type κ} → Ret A → (A → Ret B) → Ret B
fault >>= next = fault
null >>= next = null
ok value >>= next = next value

-- `if (!test) return NULL;`
abbrev pub guard : Bool → Ret (Unit {0})
guard false = null
guard true = ok tt

infixl 5 ◌>>◌
abbrev pub ◌>>◌ {ℓ} : {B : Type ℓ} → Ret (Unit {0}) → Ret B → Ret B
test >> behind = test >>= (λ _. behind)

-- A pointer as an `Option`, at the place where the code tests it for null.
abbrev pub or_null {ℓ} : {A : Type ℓ} → Option A → Ret A
or_null none = null
or_null (some a) = ok a

-- Inversion of a chain that succeeds.
module _ {ℓ κ} {A : Type ℓ} {B : Type κ} where
  pub >>=-eq-ok :
      (call : Ret A) (next : A → Ret B) {result : B}
      → (call >>= next) ≡ ok result
      → (value : A) × (call ≡ ok value) × (next value ≡ ok result)
  >>=-eq-ok fault next e = cc
  >>=-eq-ok null next e = cc
  >>=-eq-ok (ok value) next e = (value, refl, e)

pub guard-eq-ok {ℓ} :
    {B : Type ℓ} (test : Bool) (behind : Ret B) {b : B}
    → (guard test >> behind) ≡ ok b
    → (test ≡ true) × (behind ≡ ok b)
guard-eq-ok true behind e = (refl, e)
guard-eq-ok false behind e = cc

pub or_null-eq-ok {ℓ} : {A : Type ℓ} (o : Option A) {a : A} → or_null o ≡ ok a → o ≡ some a
or_null-eq-ok none e = cc
or_null-eq-ok (some b) e = cc
