-- ===== src/Base/Results.antt =====
-- The result of a call that may throw: a value, or the message of the error thrown.
use Prim.Native.String.{String}
use mathlib.Core.Path.{◌≡◌, refl}
use mathlib.Core.Logic.{◌⊎◌, inl, inr}
use mathlib.Core.Bool.{Bool, true, false}

pub data Result {ℓ} (A : Type ℓ) : Type ℓ where
  ok : A → Result A
  err : String → Result A

infixl 5 ◌>>=◌
abbrev pub ◌>>=◌ {ℓ κ} : {A : Type ℓ} {B : Type κ} → Result A → (A → Result B) → Result B
ok a >>= f = f a
err e >>= f = err e

module _ {ℓ} {A : Type ℓ} where
  abbrev pub is_err : Result A → Bool
  is_err (ok a) = false
  is_err (err e) = true

  pub Result-cases : (r : Result A) → ((a : A) × (r ≡ ok a)) ⊎ ((w : String) × (r ≡ err w))
  Result-cases (ok a) = inl (a, refl)
  Result-cases (err w) = inr (w, refl)
