-- ===== src/Base/Results.antt =====
-- A value or a thrown error: what a function that may `throw` returns.
use mathlib.Core.Path.{◌≡◌, refl}

pub data Outcome {ℓ κ} (E : Type ℓ) (A : Type κ) : Type (ℓ ⊔ κ) where
  ok : A → Outcome E A
  err : E → Outcome E A

module _ {ℓ} {E : Type ℓ} where
  infixl 5 ◌>>=◌
  abbrev pub ◌>>=◌ {κ μ} : {A : Type κ} {B : Type μ} → Outcome E A → (A → Outcome E B) → Outcome E B
  ok a >>= f = f a
  err e >>= f = err e

  pub bind-eq-ok {κ μ} :
      {A : Type κ} {B : Type μ} (m : Outcome E A) (next : A → Outcome E B) {result : B}
      → (m >>= next) ≡ ok result
      → (a : A) × ((m ≡ ok a) × (next a ≡ ok result))
  bind-eq-ok (ok a) next h = (a, (refl, h))
  bind-eq-ok (err e) next h = cc
