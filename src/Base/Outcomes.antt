-- ===== src/Base/Outcomes.antt =====
-- A call that returns, or raises one of the exceptions of type `E`.
use mathlib.Core.Path.{◌≡◌, refl}
use mathlib.Core.Bool.{Bool, true, false}

pub data Outcome {ℓ κ} (E : Type κ) (A : Type ℓ) : Type (ℓ ⊔ κ) where
  ok : A → Outcome E A
  raised : E → Outcome E A

module _ {ι} {E : Type ι} where
  infixl 5 ◌>>=◌ ◌>>◌
  abbrev pub ◌>>=◌ {ℓ κ} : {A : Type ℓ} {B : Type κ} → Outcome E A → (A → Outcome E B) → Outcome E B
  ok a >>= f = f a
  raised e >>= f = raised e

  abbrev pub ◌>>◌ {ℓ} : {B : Type ℓ} → Outcome E (Unit {0}) → Outcome E B → Outcome E B
  m >> k = m >>= λ _. k

  -- `if not test: raise e`
  abbrev pub require : Bool → E → Outcome E (Unit {0})
  require true e = ok tt
  require false e = raised e

-- A successful chain, taken apart.
module _ {ι ℓ} {E : Type ι} {A : Type ℓ} where
  pub ok-injective : {a b : A} → ◌≡◌ {A = Outcome E A} (ok a) (ok b) → a ≡ b
  ok-injective h = cc

  pub require_ok :
      (test : Bool) (e : E) (rest : Outcome E A) {a : A}
      → (require test e >> rest) ≡ ok a
      → (test ≡ true) × (rest ≡ ok a)
  require_ok true e rest h = (refl, h)
  require_ok false e rest h = cc

module _ {ι ℓ κ} {E : Type ι} {A : Type ℓ} {B : Type κ} where
  pub bind_ok :
      (m : Outcome E A) (f : A → Outcome E B) {b : B}
      → (m >>= f) ≡ ok b
      → (a : A) × (m ≡ ok a) × (f a ≡ ok b)
  bind_ok (ok a) f h = (a, refl, h)
  bind_ok (raised e) f h = cc
