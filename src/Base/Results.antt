-- ===== src/Base/Results.antt =====
-- Code that throws: a value or the error thrown.
use mathlib.Core.Path.{◌≡◌, refl}
use mathlib.Core.Bool.{Bool, true, false}

pub data Result {ℓ κ} (E : Type ℓ) (A : Type κ) : Type (ℓ ⊔ κ) where
  ok : A → Result E A
  err : E → Result E A

infixl 5 ◌>>=◌ ◌>>◌
abbrev pub ◌>>=◌ {ℓ κ μ} :
    {E : Type ℓ} {A : Type κ} {B : Type μ} → Result E A → (A → Result E B) → Result E B
ok a >>= f = f a
err e >>= f = err e

abbrev pub ◌>>◌ {ℓ κ} : {E : Type ℓ} {B : Type κ} → Result E (Unit {0}) → Result E B → Result E B
m >> k = m >>= λ _. k

-- `if (!test) throw e`.
abbrev pub require {ℓ} : {E : Type ℓ} → Bool → E → Result E (Unit {0})
require true e = ok tt
require false e = err e

pub require-eq-ok {ℓ κ} :
    {E : Type ℓ} {B : Type κ} (b : Bool) (e : E) (k : Result E B) {v : B}
    → (require b e >> k) ≡ ok v
    → (b ≡ true) × (k ≡ ok v)
require-eq-ok true e k h = (refl, h)
require-eq-ok false e k h = cc

module _ {ℓ κ μ} {E : Type ℓ} {A : Type κ} {B : Type μ} where
  pub >>=-ext :
      (r : Result E A) (f g : A → Result E B) → ((a : A) → f a ≡ g a) → (r >>= f) ≡ (r >>= g)
  >>=-ext (ok a) f g h = h a
  >>=-ext (err e) f g h = refl

  pub >>=_assoc {ν} :
      {C : Type ν} (r : Result E A) (f : A → Result E B) (g : B → Result E C)
      → (r >>= λ a. f a >>= g) ≡ ((r >>= f) >>= g)
  >>=_assoc (ok a) f g = refl
  >>=_assoc (err e) f g = refl
