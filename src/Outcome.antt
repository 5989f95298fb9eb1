-- ===== src/Outcome.antt =====
-- What a call of a function that may not throw comes to: a value, or the end of the process by
-- `std::terminate` or a failed `assert`.
use dytech.Prelude.{Bool, true, false, Option, none, some}

pub data Outcome {ℓ} (A : Type ℓ) : Type ℓ where
  returns : A → Outcome A
  terminates : Outcome A

infixl 5 ◌>>=◌ ◌>>◌
abbrev pub ◌>>=◌ {ℓ κ} : {A : Type ℓ} {B : Type κ} → Outcome A → (A → Outcome B) → Outcome B
returns a >>= f = f a
terminates >>= f = terminates

abbrev pub ◌>>◌ {ℓ} : {B : Type ℓ} → Outcome (Unit {0}) → Outcome B → Outcome B
m >> k = m >>= λ _. k

-- `assert(b)`.
abbrev pub assert : Bool → Outcome (Unit {0})
assert true = returns tt
assert false = terminates

-- A call that throws for `none`, in a function that may not throw.
abbrev pub or_terminate {ℓ} : {A : Type ℓ} → Option A → Outcome A
or_terminate (some a) = returns a
or_terminate none = terminates
