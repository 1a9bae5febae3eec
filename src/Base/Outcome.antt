-- ===== src/Base/Outcome.antt =====
-- A value or an error of a component's own error type.
use mathlib.Core.Path.{◌≡◌, refl}
use mathlib.Core.Logic.{◌⊎◌, inl, inr}

pub data Result {ℓ κ} (E : Type ℓ) (A : Type κ) : Type (ℓ ⊔ κ) where
  ok : A → Result E A
  err : E → Result E A

infixl 5 ◌>>=◌
abbrev pub ◌>>=◌ {ℓ κ μ} :
    {E : Type ℓ} {A : Type κ} {B : Type μ} → Result E A → (A → Result E B) → Result E B
ok a >>= f = f a
err e >>= f = err e

-- What comes before a good result is good.
pub >>=-eq-ok {ℓ κ μ} :
    {Wrong : Type ℓ} {Mid : Type κ} {Out : Type μ} {y : Out} (step : Result Wrong Mid)
    (then_do : Mid → Result Wrong Out)
    → (step >>= then_do) ≡ ok y
    → (x : Mid) × (step ≡ ok x) × (then_do x ≡ ok y)
>>=-eq-ok (err wrong) then_do h = cc
>>=-eq-ok (ok x) then_do h = (x, refl, h)

pub Result-cases {ℓ κ} :
    {E : Type ℓ} {A : Type κ} (r : Result E A) → ((a : A) × (r ≡ ok a)) ⊎ ((e : E) × (r ≡ err e))
Result-cases (ok a) = inl (a, refl)
Result-cases (err e) = inr (e, refl)
