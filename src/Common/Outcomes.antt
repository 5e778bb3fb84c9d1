-- ===== src/Common/Outcomes.antt =====
-- How a call ends: with a value, in `abort()`, or in a step that C++ leaves undefined (a read
-- past a vector's end, `front()` of an empty one, an erase that has nothing to erase).
use mathlib.Core.Path.{◌≡◌, refl}
use mathlib.Core.Option.{Option, none, some}
use mathlib.Core.Bool.{Bool, true, false}

pub data Outcome {ℓ} (A : Type ℓ) : Type ℓ where
  ok : A → Outcome A
  aborted : Outcome A
  undefined_behaviour : Outcome A

module _ {ℓ κ} {A : Type ℓ} {B : Type κ} where
  -- What follows runs only after a value.
  infixl 5 ◌>>=◌
  abbrev pub ◌>>=◌ : Outcome A → (A → Outcome B) → Outcome B
  undefined_behaviour >>= next = undefined_behaviour
  aborted >>= next = aborted
  ok value >>= next = next value

  -- A call that ended with a value did so in both of its parts.
  pub >>=-eq-ok :
      (first : Outcome A) (next : A → Outcome B) {result : B}
      → (first >>= next) ≡ ok result
      → (value : A) × (first ≡ ok value) × (next value ≡ ok result)
  >>=-eq-ok undefined_behaviour next e = cc
  >>=-eq-ok aborted next e = cc
  >>=-eq-ok (ok value) next e = (value, refl, e)

module _ {ℓ} {B : Type ℓ} where
  infixl 5 ◌>>◌
  abbrev pub ◌>>◌ : Outcome (Unit {0}) → Outcome B → Outcome B
  check >> next = check >>= λ passed. next

-- A read that must succeed.
abbrev pub defined {ℓ} : {A : Type ℓ} → Option A → Outcome A
defined none = undefined_behaviour
defined (some a) = ok a

-- A value that must be there: the code aborts without it.
abbrev pub or_abort {ℓ} : {A : Type ℓ} → Option A → Outcome A
or_abort none = aborted
or_abort (some a) = ok a

-- `if (!test) abort();`
abbrev pub require : Bool → Outcome (Unit {0})
require true = ok tt
require false = aborted

-- A step that C++ defines only under a condition.
abbrev pub defined_if : Bool → Outcome (Unit {0})
defined_if true = ok tt
defined_if false = undefined_behaviour

pub ok-injective {ℓ} : {A : Type ℓ} (a b : A) → ok a ≡ ok b → a ≡ b
ok-injective a b h = cc

pub defined-eq-ok {ℓ} : {A : Type ℓ} (o : Option A) {a : A} → defined o ≡ ok a → o ≡ some a
defined-eq-ok none h = cc
defined-eq-ok (some b) h = cc
