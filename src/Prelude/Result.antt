-- ===== src/Prelude/Result.antt =====
-- Go's `(value, error)` pair, where exactly one of the two is meant.
use mathlib.Core.Path.{◌≡◌, refl}
use mathlib.Core.Logic.{◌⊎◌, inl, inr}
use mathlib.Core.Bool.{Bool, true, false}

pub data Result {ℓ κ} (E : Type ℓ) (A : Type κ) : Type (ℓ ⊔ κ) where
  ok : A → Result E A
  err : E → Result E A

module _ {ℓ} {E : Type ℓ} where
  infixl 5 ◌>>=◌ ◌>>◌
  abbrev pub ◌>>=◌ {κ μ} : {A : Type κ} {B : Type μ} → Result E A → (A → Result E B) → Result E B
  ok a >>= f = f a
  err e >>= f = err e

  abbrev pub ◌>>◌ {κ} : {B : Type κ} → Result E (Unit {0}) → Result E B → Result E B
  m >> k = m >>= λ _. k

  -- `if err != nil { return …: %w }`: the error is wrapped.
  abbrev pub wrap {κ μ} : {F : Type κ} {A : Type μ} → (E → F) → Result E A → Result F A
  wrap f (ok a) = ok a
  wrap f (err e) = err (f e)

  -- `if !test { return e }`.
  abbrev pub guard : Bool → E → Result E (Unit {0})
  guard true e = ok tt
  guard false e = err e

  -- A guard that lets the rest run has passed.
  pub guard-eq-ok :
      (b : Bool) (e : E) {A : Type 0} (m : Result E A) {a : A}
      → (guard b e >> m) ≡ ok a
      → (b ≡ true) × (m ≡ ok a)
  guard-eq-ok true e m h = (refl, h)
  guard-eq-ok false e m h = cc

  pub >>-eq-ok :
      (m : Result E (Unit {0})) {A : Type 0} (k : Result E A) {a : A}
      → (m >> k) ≡ ok a
      → (m ≡ ok tt) × (k ≡ ok a)
  >>-eq-ok (ok _) k h = (refl, h)
  >>-eq-ok (err e) k h = cc

pub Result-cases {ℓ κ} :
    {E : Type ℓ} {A : Type κ} (r : Result E A) → ((a : A) × (r ≡ ok a)) ⊎ ((e : E) × (r ≡ err e))
Result-cases (ok a) = inl (a, refl)
Result-cases (err e) = inr (e, refl)
