-- ===== src/Base/Outcome.antt =====
-- A Go pair `(value, error)` of which one part counts.
use mathlib.Core.Path.{◌≡◌, refl}
use mathlib.Core.Logic.{◌⊎◌, inl, inr}

pub data Result {κ ℓ} (E : Type κ) (A : Type ℓ) : Type (κ ⊔ ℓ) where
  err : E → Result E A
  ok : A → Result E A

module _ {κ ℓ} {E : Type κ} {A : Type ℓ} where
  pub Result-cases : (r : Result E A) → ((a : A) × (r ≡ ok a)) ⊎ ((e : E) × (r ≡ err e))
  Result-cases (err why) = inr (why, refl)
  Result-cases (ok value) = inl (value, refl)

  module _ {μ} {B : Type μ} where
    infixl 5 ◌>>=◌
    abbrev pub ◌>>=◌ : Result E A → (A → Result E B) → Result E B
    err why >>= next = err why
    ok value >>= next = next value

    -- A chain that succeeds has succeeded at each step.
    pub >>=-eq-ok :
        (next : A → Result E B) {b : B} (r : Result E A)
        → (r >>= next) ≡ ok b
        → (a : A) × (r ≡ ok a) × (next a ≡ ok b)
    >>=-eq-ok next (err why) h = absurd (cc)
    >>=-eq-ok next (ok value) h = (value, refl, h)
