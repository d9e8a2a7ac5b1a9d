-- ===== src/Prelude/Results.antt =====
-- Fallible results, and stateful code that may fail: what was written before a failure stays
-- written, so the state comes back beside the error.
use mathlib.Core.Path.{◌≡◌, refl}
use mathlib.Core.Logic.{◌⊎◌, inl, inr}
use mathlib.Core.Bool.{Bool, true, false}
use mathlib.Core.Option.{Option, none, some}
use mathlib.Core.List.{List, [], ◌∷◌}

pub data Result {ℓ κ} (E : Type ℓ) (A : Type κ) : Type (ℓ ⊔ κ) where
  ok : A → Result E A
  err : E → Result E A

abbrev pub and_then {ℓ κ μ} :
    {E : Type ℓ} {A : Type κ} {B : Type μ} → Result E A → (A → Result E B) → Result E B
and_then (ok a) f = f a
and_then (err e) f = err e

-- Rust's `ok_or`
abbrev pub ok_or {ℓ κ} : {E : Type ℓ} {A : Type κ} → Option A → E → Result E A
ok_or none e = err e
ok_or (some a) e = ok a

-- `assert!(test, e)` and `if !test { return Err(e) }`
abbrev pub check {ℓ} : {E : Type ℓ} → Bool → E → Result E (Unit {0})
check true e = ok tt
check false e = err e

-- `iter().map(f).collect::<Result<Vec<_>, _>>()`
abbrev pub collect {ℓ κ μ} :
    {E : Type ℓ} {A : Type κ} {B : Type μ} → (A → Result E B) → List A → Result E (List B)
collect f [] = ok []
collect f (x ∷ xs) = and_then (f x) (λ y. and_then (collect f xs) (λ ys. ok (y ∷ ys)))

pub Result-cases {ℓ κ} :
    {E : Type ℓ} {A : Type κ} (r : Result E A) → ((a : A) × (r ≡ ok a)) ⊎ ((e : E) × (r ≡ err e))
Result-cases (ok a) = inl (a, refl)
Result-cases (err e) = inr (e, refl)

-- Inversion of a chain that succeeded.
pub and_then-eq-ok {ℓ κ μ} :
    {E : Type ℓ} {A : Type κ} {B : Type μ} (r : Result E A) (f : A → Result E B) {b : B}
    → and_then r f ≡ ok b
    → (a : A) × (r ≡ ok a) × (f a ≡ ok b)
and_then-eq-ok (ok a) f h = (a, refl, h)
and_then-eq-ok (err e) f h = cc
