-- ===== src/Prelude/Result.antt =====
-- JavaScript exceptions as values: a function that may throw returns a `Result`.
use mathlib.Core.Path.{◌≡◌, refl}

-- The errors that the modelled code throws.
pub data JsError : Type 0 where
  range_error invalid_reviewed_configuration : JsError

-- A call throws, or returns a value.
pub data Result {ℓ} (Value : Type ℓ) : Type ℓ where
  throw : JsError → Result Value
  ok : Value → Result Value

module _ {ℓ κ} {Value : Type ℓ} {Next : Type κ} where
  infixl 6 ◌>>=◌
  abbrev pub ◌>>=◌ : Result Value → (Value → Result Next) → Result Next
  ◌>>=◌ m next = elim m [ ok v ↦ next v | throw e ↦ throw e ]

  -- The steps of a call that returned have returned.
  pub >>=-eq-ok :
      (m : Result Value) (next : Value → Result Next) {last : Next}
      → (m >>= next) ≡ ok last
      → (v : Value) × (m ≡ ok v) × (next v ≡ ok last)
  >>=-eq-ok (throw e) next h = cc
  >>=-eq-ok (ok v) next h = (v, refl, h)
