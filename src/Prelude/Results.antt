-- ===== src/Prelude/Results.antt =====
-- Go's pair of a value and an `error`, for functions whose callers read the value only when the
-- error is nil.
use mathlib.Core.Path.{◌≡◌, refl}
use mathlib.Core.Bool.{Bool, true, false, not}
use mathlib.Core.Logic.{◌⊎◌, inl, inr}
use mathlib.Core.Option.{Option, none, some}

pub data Result {ℓ κ} (E : Type κ) (A : Type ℓ) : Type (ℓ ⊔ κ) where
  ok : A → Result E A
  err : E → Result E A

infixl 5 ◌>>=◌ ◌>>◌
abbrev pub ◌>>=◌ {ℓ κ ι} :
    {E : Type ι} {A : Type ℓ} {B : Type κ} → Result E A → (A → Result E B) → Result E B
ok a >>= f = f a
err e >>= f = err e

abbrev pub ◌>>◌ {ℓ ι} : {E : Type ι} {B : Type ℓ} → Result E (Unit {0}) → Result E B → Result E B
m >> k = m >>= λ _. k

-- `if !test { return err }`
abbrev pub guard {ι} : {E : Type ι} → Bool → E → Result E (Unit {0})
guard true e = ok tt
guard false e = err e

-- an `error` that is nil or not
abbrev pub check {ι} : {E : Type ι} → Option E → Result E (Unit {0})
check none = ok tt
check (some e) = err e

module _ {ℓ ι} {E : Type ι} {A : Type ℓ} where
  pub Result-cases : (r : Result E A) → ((a : A) × (r ≡ ok a)) ⊎ ((e : E) × (r ≡ err e))
  Result-cases (ok a) = inl (a, refl)
  Result-cases (err e) = inr (e, refl)

-- A chain that succeeds has succeeded at its first step, and so has what follows it.
module _ {ℓ κ ι} {E : Type ι} {A : Type ℓ} {B : Type κ} where
  pub bind_ok :
      (m : Result E A) (f : A → Result E B) {b : B}
      → (m >>= f) ≡ ok b
      → (a : A) × (m ≡ ok a) × (f a ≡ ok b)
  bind_ok (ok a) f h = (a, refl, h)
  bind_ok (err e) f h = absurd (cc)

module _ {ℓ ι} {E : Type ι} {A : Type ℓ} where
  pub ok_injective : {a b : A} → Path (Result E A) (ok a) (ok b) → a ≡ b
  ok_injective h = cc

-- A chain that succeeds has passed its guard.
module _ {ℓ ι} {E : Type ι} {B : Type ℓ} where
  pub guard_ok :
      (test : Bool) (e : E) (k : Result E B) {b : B}
      → (guard test e >> k) ≡ ok b
      → (test ≡ true) × (k ≡ ok b)
  guard_ok true e k h = (refl, h)
  guard_ok false e k h = absurd (cc)

  pub guard-not_ok :
      (test : Bool) (e : E) (k : Result E B) {b : B}
      → (guard (not test) e >> k) ≡ ok b
      → (test ≡ false) × (k ≡ ok b)
  guard-not_ok false e k h = (refl, h)
  guard-not_ok true e k h = absurd (cc)
