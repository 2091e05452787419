-- ===== src/Base/Results.antt =====
-- Rust's `Result<T, E>`.
use mathlib.Core.Path.{◌≡◌, refl, ap}
use mathlib.Core.Logic.{◌⊎◌, inl, inr}

pub data Result {ℓ κ} (A : Type ℓ) (E : Type κ) : Type (ℓ ⊔ κ) where
  ok : A → Result A E
  err : E → Result A E

-- `?` through a `From` on the error.
abbrev pub map_err {ℓ κ μ} :
    {A : Type ℓ} {E : Type κ} {F : Type μ} → (E → F) → Result A E → Result A F
map_err f (ok a) = ok a
map_err f (err e) = err (f e)

-- `and_then`, and `?` where the errors agree.
abbrev pub and_then {ℓ κ μ} :
    {A : Type ℓ} {B : Type κ} {E : Type μ} → Result A E → (A → Result B E) → Result B E
and_then (err e) f = err e
and_then (ok a) f = f a

pub and_then-ok {ℓ κ μ} :
    {A : Type ℓ} {B : Type κ} {E : Type μ} (r : Result A E) (f : A → Result B E) {b : B}
    → and_then r f ≡ ok b
    → (a : A) × (r ≡ ok a) × (f a ≡ ok b)
and_then-ok (err e) f h = cc
and_then-ok (ok a) f h = (a, refl, h)

pub and_then-err {ℓ κ μ} :
    {A : Type ℓ} {B : Type κ} {E : Type μ} (r : Result A E) (f : A → Result B E) {x : E}
    → and_then r f ≡ err x
    → (r ≡ err x) ⊎ ((a : A) × (r ≡ ok a) × (f a ≡ err x))
and_then-err (err e) f h = inl (let same : e ≡ _ = cc in ap err same)
and_then-err (ok a) f h = inr (a, refl, h)
