-- ===== src/Prelude/Results.antt =====
-- How a call of a contract ends: with a value, with an error value, or by a panic (`unwrap` of
-- nothing, an overflow of an operator). What a call has written is kept only where it ends well.
use mathlib.Core.Path.{◌≡◌, refl}
use mathlib.Core.Logic.{◌⊎◌, inl, inr}
use mathlib.Core.Option.{Option, none, some}
use mathlib.Core.Bool.{Bool, true, false}

pub data Outcome (E A : Type 0) : Type 0 where
  ok : A → Outcome E A
  err : E → Outcome E A
  panic : Outcome E A

infixl 5 ◌>>=◌ ◌>>◌
abbrev pub ◌>>=◌ : {E A B : Type 0} → Outcome E A → (A → Outcome E B) → Outcome E B
ok a >>= f = f a
err e >>= f = err e
panic >>= f = panic

abbrev pub ◌>>◌ : {E B : Type 0} → Outcome E (Unit {0}) → Outcome E B → Outcome E B
m >> k = m >>= λ _. k

-- `if c { return Err(e); }`
abbrev pub fail_if : {E : Type 0} → Bool → E → Outcome E (Unit {0})
fail_if true e = err e
fail_if false e = ok tt

-- `.unwrap()` of a result and of an option
abbrev pub unwrap : {E F A : Type 0} → Outcome F A → Outcome E A
unwrap (ok a) = ok a
unwrap (err e) = panic
unwrap panic = panic

abbrev pub unwrap_option : {E A : Type 0} → Option A → Outcome E A
unwrap_option none = panic
unwrap_option (some a) = ok a

-- `?` where the function's error type has `From<F>`
abbrev pub map_err : {E F A : Type 0} → (F → E) → Outcome F A → Outcome E A
map_err f (ok a) = ok a
map_err f (err e) = err (f e)
map_err f panic = panic

-- Splits on a call, and keeps the equation or what it excludes.
pub Outcome-cases :
    {E A : Type 0} (o : Outcome E A)
    → ((a : A) × (o ≡ ok a)) ⊎ ((e : E) × (o ≡ err e)) ⊎ (o ≡ panic)
Outcome-cases (ok a) = inl (a, refl)
Outcome-cases (err e) = inr (inl (e, refl))
Outcome-cases panic = inr (inr refl)
