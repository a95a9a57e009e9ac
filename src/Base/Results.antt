-- ===== src/Base/Results.antt =====
-- Rust's `Result`, with the combinators that the source uses.
use mathlib.Core.Path.{◌≡◌, refl}
use mathlib.Core.Option.{Option, none, some}
use mathlib.Core.Bool.{Bool, true, false}
use mathlib.Core.Logic.{◌⊎◌, inl, inr}

pub data Result {ℓ κ} (A : Type ℓ) (E : Type κ) : Type (ℓ ⊔ κ) where
  ok : A → Result A E
  err : E → Result A E

module _ {ℓ κ μ} {A : Type ℓ} {B : Type κ} {E : Type μ} where
  -- the `?` operator
  abbrev pub and_then : Result A E → (A → Result B E) → Result B E
  and_then (ok a) f = f a
  and_then (err e) f = err e

module _ {ℓ κ μ} {A : Type ℓ} {E : Type κ} {F : Type μ} where
  abbrev pub map_err : (E → F) → Result A E → Result A F
  map_err f (ok a) = ok a
  map_err f (err e) = err (f e)

module _ {ℓ κ} {A : Type ℓ} {E : Type κ} where
  abbrev pub ok_or : Option A → E → Result A E
  ok_or (some a) e = ok a
  ok_or none e = err e

  abbrev pub is_ok : Result A E → Bool
  is_ok (ok a) = true
  is_ok (err e) = false

  pub Result-cases : (r : Result A E) → ((a : A) × (r ≡ ok a)) ⊎ ((e : E) × (r ≡ err e))
  Result-cases (ok a) = inl (a, refl)
  Result-cases (err e) = inr (e, refl)
