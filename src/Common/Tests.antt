-- ===== src/Common/Tests.antt =====
-- Boolean tests, and the ways to split on them.
use mathlib.Core.Path.{◌≡◌, refl}
use mathlib.Core.Logic.{◌⊎◌, inl, inr}
use mathlib.Core.Bool.{Bool, true, false, not, ◌&&◌, ◌||◌}
use mathlib.Core.List.{List, [], ◌∷◌, ◌++◌}
use native.Mathlib.Omega.{arith}

infix 1 if◌then◌else◌
abbrev pub if◌then◌else◌ {ℓ} : {A : Type ℓ} → Bool → A → A → A
if true then x else y = x
if false then x else y = y

-- To split on a computed value and keep the equation.
pub Bool-cases : (b : Bool) → (b ≡ true) ⊎ (b ≡ false)
Bool-cases true = inl refl
Bool-cases false = inr refl

-- Does every element, or any element, pass the test?
abbrev pub every {ℓ} : {A : Type ℓ} → (A → Bool) → List A → Bool
every p [] = true
every p (x ∷ xs) = p x && every p xs

abbrev pub exists {ℓ} : {A : Type ℓ} → (A → Bool) → List A → Bool
exists p [] = false
exists p (x ∷ xs) = p x || exists p xs

abbrev pub All {ℓ κ} : {A : Type ℓ} → (A → Type κ) → List A → Type κ
All P [] = Unit
All P (x ∷ xs) = P x × All P xs

pub and-eq-true : (a b : Bool) → (a && b) ≡ true → (a ≡ true) × (b ≡ true)
and-eq-true true true h = (refl, refl)
and-eq-true true false h = cc
and-eq-true false b h = cc

module _ {ℓ} {A : Type ℓ} (p : A → Bool) where
  pub every-append :
      (xs ys : List A) → every p (xs ++ ys) ≡ true → (every p xs ≡ true) × (every p ys ≡ true)
  every-append [] ys h = (refl, h)
  every-append (x ∷ xs) ys h = ground (arith, every-append xs ys)

pub not-eq-true : (b : Bool) → not b ≡ true → b ≡ false
not-eq-true b h = ground arith

pub or-true : (b : Bool) → (b || true) ≡ true
or-true b = ground arith
