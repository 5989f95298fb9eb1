-- ===== src/Core/Result.antt =====
-- A value, the text of an exception, or the end of the process by a failed `assert`.
use dytech.Prelude.{Bytes, Bool, true, false, Option, none, some}

pub data Result {ℓ} (A : Type ℓ) : Type ℓ where
  ok : A → Result A
  throws : Bytes → Result A
  aborts : Result A

infixl 5 ◌>>=◌ ◌>>◌
abbrev pub ◌>>=◌ {ℓ κ} : {A : Type ℓ} {B : Type κ} → Result A → (A → Result B) → Result B
ok a >>= f = f a
throws e >>= f = throws e
aborts >>= f = aborts

abbrev pub ◌>>◌ {ℓ} : {B : Type ℓ} → Result (Unit {0}) → Result B → Result B
m >> k = m >>= λ _. k

-- A system call that reports -1 as `false` or `none`.
abbrev pub check : Bool → Bytes → Result (Unit {0})
check true e = ok tt
check false e = throws e

abbrev pub or_throw {ℓ} : {A : Type ℓ} → Option A → Bytes → Result A
or_throw (some a) e = ok a
or_throw none e = throws e

-- `assert(b)`.
abbrev pub assert : Bool → Result (Unit {0})
assert true = ok tt
assert false = aborts
