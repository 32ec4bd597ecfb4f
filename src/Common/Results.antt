-- ===== src/Common/Results.antt =====
-- Errors as values, with `do` blocks.
use mathlib.Core.Path.{◌≡◌, refl}
use mathlib.Core.Logic.{◌⊎◌, inl, inr}
use mathlib.Core.Bool.{Bool, true, false}

pub data Result {ℓ κ} (E : Type ℓ) (A : Type κ) : Type (ℓ ⊔ κ) where
  ok : A → Result E A
  err : E → Result E A

infixl 5 ◌>>=◌ ◌>>◌
abbrev pub ◌>>=◌ {ℓ κ μ} :
    {E : Type ℓ} {A : Type κ} {B : Type μ} → Result E A → (A → Result E B) → Result E B
ok a >>= f = f a
err e >>= f = err e

abbrev pub ◌>>◌ {ℓ κ} : {E : Type ℓ} {B : Type κ} → Result E (Unit {0}) → Result E B → Result E B
m >> k = m >>= λ _. k

abbrev pub guard {ℓ} : {E : Type ℓ} → Bool → E → Result E (Unit {0})
guard true e = ok tt
guard false e = err e

-- What holds of a result, if it is one.
abbrev pub OkAll {ℓ κ μ} : {E : Type ℓ} {A : Type κ} → (A → Type μ) → Result E A → Type μ
OkAll P (ok a) = P a
OkAll P (err e) = Unit

pub OkAll-bind {ℓ κ ρ μ ν} :
    {E : Type ℓ} {A : Type κ} {B : Type ρ} (P : A → Type μ) (Q : B → Type ν) (m : Result E A)
    (f : A → Result E B)
    → OkAll P m
    → ((a : A) → P a → OkAll Q (f a))
    → OkAll Q (m >>= f)
OkAll-bind P Q (ok a) f h g = g a h
OkAll-bind P Q (err e) f h g = tt

pub OkAll-then {ℓ κ ν} :
    {E : Type ℓ} {B : Type κ} (Q : B → Type ν) (m : Result E (Unit {0})) (k : Result E B)
    → OkAll Q k
    → OkAll Q (m >> k)
OkAll-then Q (ok a) k h = h
OkAll-then Q (err e) k h = tt

pub Result-cases {ℓ κ} :
    {E : Type ℓ} {A : Type κ} (r : Result E A) → ((a : A) × (r ≡ ok a)) ⊎ ((e : E) × (r ≡ err e))
Result-cases (ok a) = inl (a, refl)
Result-cases (err e) = inr (e, refl)
