-- ===== src/Base/Outcome.antt =====
-- Rust's `Result`, and the `?` operator as the bind of `do` blocks.
use mathlib.Core.Path.{◌≡◌, refl, ap}
use mathlib.Core.Logic.{◌⊎◌, inl, inr}

pub data Result {ℓ κ} (A : Type ℓ) (E : Type κ) : Type (ℓ ⊔ κ) where
  ok : A → Result A E
  err : E → Result A E

pub ok-injective {ℓ κ} :
    {A : Type ℓ} {E : Type κ} {a b : A} → ◌≡◌ {A = Result A E} (ok a) (ok b) → a ≡ b
ok-injective e = cc

module _ {ℓ κ} {E : Type ℓ} {A : Type κ} where
  abbrev pub map_err {μ} : {F : Type μ} → Result A E → (E → F) → Result A F
  map_err (ok a) f = ok a
  map_err (err e) f = err (f e)

  abbrev pub and_then {μ} : {B : Type μ} → Result A E → (A → Result B E) → Result B E
  and_then (ok a) f = f a
  and_then (err e) f = err e

  -- Inversion of a successful bind.
  pub and_then-eq-ok {μ} :
      {B : Type μ} (m : Result A E) (f : A → Result B E) {b : B}
      → and_then m f ≡ ok b
      → (a : A) × (m ≡ ok a) × (f a ≡ ok b)
  and_then-eq-ok (ok a) f h = (a, refl, h)
  and_then-eq-ok (err e) f h = cc

  pub Result-cases : (r : Result A E) → ((a : A) × (r ≡ ok a)) ⊎ ((e : E) × (r ≡ err e))
  Result-cases (ok a) = inl (a, refl)
  Result-cases (err e) = inr (e, refl)

pub map_err-eq-ok {ℓ κ μ} :
    {A : Type ℓ} {E : Type κ} {F : Type μ} (r : Result A E) (f : E → F) (a : A)
    → map_err r f ≡ ok a
    → r ≡ ok a
map_err-eq-ok (ok b) f a e = ap ok (ok-injective e)
map_err-eq-ok (err x) f a e = cc
