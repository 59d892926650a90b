-- ===== src/Common/Outcome.antt =====
-- Rust's `Result`, its `?` as a bind, and `Option` tests.
use mathlib.Core.Path.{◌≡◌, refl}
use mathlib.Core.Logic.{◌⊎◌, inl, inr}

pub data Result {ℓ κ} (E : Type ℓ) (A : Type κ) : Type (ℓ ⊔ κ) where
  ok : A → Result E A
  err : E → Result E A

-- The operator `?`: an error returns early, and a value goes on.
abbrev pub or_return {ℓ κ ν} :
    {E : Type ℓ} {A : Type κ} {B : Type ν} → (A → Result E B) → Result E A → Result E B
or_return next (err e) = err e
or_return next (ok a) = next a

infixl 5 ◌>>=◌
abbrev pub ◌>>=◌ {ℓ κ ν} :
    {E : Type ℓ} {A : Type κ} {B : Type ν} → Result E A → (A → Result E B) → Result E B
result >>= next = or_return next result

infixl 5 ◌>>◌
abbrev pub ◌>>◌ {ℓ ν} : {E : Type ℓ} {B : Type ν} → Result E (Unit {0}) → Result E B → Result E B
result >> next = or_return (λ _. next) result

pub Result-cases {ℓ κ} :
    {E : Type ℓ} {A : Type κ} (r : Result E A) → ((a : A) × (r ≡ ok a)) ⊎ ((e : E) × (r ≡ err e))
Result-cases (ok a) = inl (a, refl)
Result-cases (err e) = inr (e, refl)
