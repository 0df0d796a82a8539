-- ===== src/Prelude/Runs.antt =====
-- Runs of C++ code: a result, or the undefined behaviour that ends the model's run.
use mathlib.Core.Path.{◌≡◌, refl}
use mathlib.Core.Option.{Option, none, some}

-- What a C++ program must not do. `bad_free` is a free or delete of what is not allocated,
-- `dangling` a use of freed storage, `out_of_bounds` an access past a block's end, `uninitialised` a
-- read of storage that was never written, `null_pointer` a use of NULL, `overflow` a result of `int`
-- arithmetic that is no `int`.
pub data Fault : Type 0 where
  null_pointer dangling out_of_bounds uninitialised bad_free overflow : Fault

-- `out_of_fuel` is no behaviour of the code: theorems show that it does not come up.
pub data Outcome {ℓ} (A : Type ℓ) : Type ℓ where
  ok : A → Outcome A
  fault : Fault → Outcome A
  out_of_fuel : Outcome A

infixl 5 ◌>>=◌
abbrev pub ◌>>=◌ {ℓ κ} : {A : Type ℓ} {B : Type κ} → Outcome A → (A → Outcome B) → Outcome B
ok a >>= f = f a
fault e >>= f = fault e
out_of_fuel >>= f = out_of_fuel

-- A value that is there, or a fault.
abbrev pub or_fault {ℓ} : {A : Type ℓ} → Fault → Option A → Outcome A
or_fault e none = fault e
or_fault e (some a) = ok a

-- Total correctness of a run: it ends with a result, and the result satisfies `P`.
pub data Returns {ℓ κ} {A : Type ℓ} (P : A → Type κ) : Outcome A → Type (ℓ ⊔ κ) where
  returns : {a : A} → P a → Returns P (ok a)

pub Returns-mono {ℓ κ κ'} :
    {A : Type ℓ} {P : A → Type κ} {Q : A → Type κ'} {r : Outcome A}
    → Returns P r
    → ((a : A) → P a → Q a)
    → Returns Q r
Returns-mono (returns p) weaken = returns (weaken _ p)

pub Returns-bind {ℓ κ μ κ'} :
    {A : Type ℓ} {B : Type μ} {P : A → Type κ} {Q : B → Type κ'} {r : Outcome A} {f : A → Outcome B}
    → Returns P r
    → ((a : A) → P a → Returns Q (f a))
    → Returns Q (r >>= f)
Returns-bind (returns p) rest = rest _ p

-- The result of a run that has one.
pub Returns-ok {ℓ κ} :
    {A : Type ℓ} {P : A → Type κ} {r : Outcome A} → Returns P r → (a : A) × (r ≡ ok a) × P a
Returns-ok (returns {a} p) = (a, refl, p)
