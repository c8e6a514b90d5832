-- ===== src/Common/Outcomes.antt =====
-- How a C++ call ends: with a value, with an exception, in undefined behaviour (a null
-- pointer read, a division by zero), or in a failed assertion. After the last two nothing is said.
use mathlib.Core.Path.{◌≡◌, subst}
use mathlib.Core.Bool.{Bool, true, false}

pub data Fault : Type 0 where
  out_of_range length_error undefined assertion_failed : Fault

pub data Outcome {ℓ} (A : Type ℓ) : Type ℓ where
  ok : A → Outcome A
  throws : Fault → Outcome A

infixl 5 ◌>>=◌ ◌>>◌
abbrev pub ◌>>=◌ {ℓ κ} : {A : Type ℓ} {B : Type κ} → Outcome A → (A → Outcome B) → Outcome B
ok a >>= f = f a
throws e >>= f = throws e

abbrev pub ◌>>◌ {ℓ} : {B : Type ℓ} → Outcome (Unit {0}) → Outcome B → Outcome B
m >> k = m >>= λ _. k

pub ok-injective {ℓ} : {A : Type ℓ} {a b : A} → ok a ≡ ok b → a ≡ b
ok-injective e = cc

-- What holds of an outcome if it is a result.
abbrev pub Returns {ℓ} : {A : Type ℓ} → (A → Type 0) → Outcome A → Type 0
Returns P (ok a) = P a
Returns P (throws err) = Unit

pub Returns-bind :
    {A B : Type 0} (P : A → Type 0) (Q : B → Type 0) (o : Outcome A) (f : A → Outcome B)
    → Returns P o
    → ((a : A) → P a → Returns Q (f a))
    → Returns Q (o >>= f)
Returns-bind P Q (ok a) f p step = step a p
Returns-bind P Q (throws err) f p step = tt

-- `EAST_ASSERT`.
abbrev pub assert : Bool → Outcome (Unit {0})
assert true = ok tt
assert false = throws assertion_failed

-- A bind whose first part says nothing.
pub Returns-each :
    {A B : Type 0} (Q : B → Type 0) (o : Outcome A) (f : A → Outcome B)
    → ((a : A) → Returns Q (f a))
    → Returns Q (o >>= f)
Returns-each Q (ok a) f step = step a
Returns-each Q (throws err) f step = tt

pub Returns-weaken :
    {A : Type 0} (P Q : A → Type 0) (o : Outcome A)
    → Returns P o
    → ((a : A) → P a → Q a)
    → Returns Q o
Returns-weaken P Q (ok a) p weaker = weaker a p
Returns-weaken P Q (throws err) p weaker = tt

pub Returns-ok :
    {A : Type 0} (P : A → Type 0) (o : Outcome A) {a : A} → Returns P o → o ≡ ok a → P a
Returns-ok P (ok b) p e = subst P (ok-injective e) p
Returns-ok P (throws err) p e = cc e
