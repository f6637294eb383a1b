-- ===== src/Common/Results.antt =====
-- What a function that may raise gives back, for any kind of error.
use mathlib.Core.Path.{◌≡◌, refl}
use mathlib.Core.Bool.{Bool, true, false}

pub data Fallible {ℓ} (E : Type 0) (A : Type ℓ) : Type ℓ where
  ok : A → Fallible E A
  err : E → Fallible E A

module _ {E : Type 0} where
  infixl 5 ◌>>=◌ ◌>>◌
  abbrev pub ◌>>=◌ {ℓ κ} :
      {A : Type ℓ} {B : Type κ} → Fallible E A → (A → Fallible E B) → Fallible E B
  ok value >>= next = next value
  err error >>= next = err error

  abbrev pub ◌>>◌ {ℓ} : {B : Type ℓ} → Fallible E (Unit {0}) → Fallible E B → Fallible E B
  first >> second = first >>= λ done. second

  -- `if test: raise`
  abbrev pub raise_if : Bool → E → Fallible E (Unit {0})
  raise_if true error = err error
  raise_if false error = ok tt

  -- A chain that returns has returned at its first step.
  pub ok_of_bind {ℓ κ} :
      {A : Type ℓ} {B : Type κ} (step : Fallible E A) (next : A → Fallible E B) {b : B}
      → (step >>= next) ≡ ok b
      → (a : A) × (step ≡ ok a) × (next a ≡ ok b)
  ok_of_bind (ok a) next through = (a, refl, through)
  ok_of_bind (err error) next through = cc
