-- ===== src/Base/Results.antt =====
-- What a call of Go code gives: a value, an error value, or a run-time panic.
use mathlib.Core.Path.{◌≡◌, refl}
use mathlib.Core.Option.{Option, none, some}

pub data Outcome {ℓ κ} (E : Type κ) (A : Type ℓ) : Type (ℓ ⊔ κ) where
  ok : A → Outcome E A
  err : E → Outcome E A
  panic : Outcome E A

infixl 5 ◌>>=◌
abbrev pub ◌>>=◌ {ℓ κ ι} :
    {E : Type ι} {A : Type ℓ} {B : Type κ} → Outcome E A → (A → Outcome E B) → Outcome E B
ok a >>= f = f a
err e >>= f = err e
panic >>= f = panic

-- An operation that panics where it has no value, such as an index out of range.
abbrev pub or_panic {ℓ κ} : {E : Type κ} {A : Type ℓ} → Option A → Outcome E A
or_panic none = panic
or_panic (some a) = ok a

pub bind-ok {ℓ κ} : {E : Type κ} {A : Type ℓ} (r : Outcome E A) → (r >>= λ a. ok a) ≡ r
bind-ok (ok a) = refl
bind-ok (err e) = refl
bind-ok panic = refl

-- A chain of steps that succeeds has a first step that succeeds.
pub >>=-eq-ok {ℓ κ ι} :
    {E : Type ι} {A : Type ℓ} {B : Type κ} (r : Outcome E A) (f : A → Outcome E B) {b : B}
    → (r >>= f) ≡ ok b
    → (a : A) × (r ≡ ok a) × (f a ≡ ok b)
>>=-eq-ok (ok a) f h = (a, refl, h)
>>=-eq-ok (err e) f h = cc
>>=-eq-ok panic f h = cc
