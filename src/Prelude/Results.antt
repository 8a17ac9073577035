-- ===== src/Prelude/Results.antt =====
-- What a fallible Go function returns: a value and a nil error, or an error.
use mathlib.Core.Path.{◌≡◌, refl}
use mathlib.Core.Logic.{◌⊎◌, inl, inr}

-- The error comes first, since its type is fixed in a chain of calls.
pub data Result {ℓ κ} (E : Type κ) (A : Type ℓ) : Type (ℓ ⊔ κ) where
  err : E → Result E A
  ok : A → Result E A

module _ {ℓ κ} {E : Type κ} {A : Type ℓ} where
  -- A result is one of the two, with the equation.
  pub Result-cases :
      (result : Result E A) → ((v : A) × (result ≡ ok v)) ⊎ ((why : E) × (result ≡ err why))
  Result-cases (err why) = inr (why, refl)
  Result-cases (ok v) = inl (v, refl)

  module _ {μ} {B : Type μ} where
    infixl 5 ◌>>=◌
    -- `if err != nil { return err }` between two calls.
    abbrev pub ◌>>=◌ : Result E A → (A → Result E B) → Result E B
    err why >>= next = err why
    ok v >>= next = next v

    -- A chain that succeeds has passed both calls.
    pub >>=-eq-ok :
        (first : Result E A) (next : A → Result E B) {out : B}
        → (first >>= next) ≡ ok out
        → (v : A) × (first ≡ ok v) × (next v ≡ ok out)
    >>=-eq-ok (err why) next done = cc
    >>=-eq-ok (ok v) next done = (v, refl, done)
