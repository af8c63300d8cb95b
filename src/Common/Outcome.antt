-- ===== src/Common/Outcome.antt =====
-- Go's `error` values, and functions that return one.
use Prim.Native.String.{String, ◌++◌ as ◌<>◌}
use mathlib.Core.Path.{◌≡◌, refl}
use mathlib.Core.Bool.{Bool}

-- What the code observes of an error: `errors.IsNotFound(err)` and `err.Error()`.
pub record Error : Type 0 where
  pub is_not_found : Bool
  pub text : String

-- A result and a nil error, or an error.
pub data Result {ℓ} (A : Type ℓ) : Type ℓ where
  err : Error → Result A
  ok : A → Result A

pub ok-inj {ℓ} : {A : Type ℓ} {a b : A} → ok a ≡ ok b → a ≡ b
ok-inj h = cc

module _ {ℓ κ} {A : Type ℓ} {B : Type κ} where
  -- `if err := f(); err != nil { return err }`
  infixl 10 ◌>>=◌
  abbrev pub ◌>>=◌ : Result A → (A → Result B) → Result B
  err e >>= next = err e
  ok a >>= next = next a

  -- A chain that returns has returned from its first function, and then from its second.
  pub >>=-ok :
      (first : Result A) (next : A → Result B) {b : B}
      → (first >>= next) ≡ ok b
      → (a : A) × (first ≡ ok a) × (next a ≡ ok b)
  >>=-ok (err e) next h = cc
  >>=-ok (ok a) next h = (a, refl, h)

-- `fmt.Errorf("<prefix>: %w", err)`: the wrapped error is still found by `errors.IsNotFound`.
abbrev pub wrap : String → Error → Error
wrap prefix e = record e { text = prefix <> (": " <> e.text) }

-- `if err != nil { return fmt.Errorf("<prefix>: %w", err) }`
abbrev pub wrapped {ℓ} : {A : Type ℓ} → String → Result A → Result A
wrapped prefix (ok a) = ok a
wrapped prefix (err e) = err (wrap prefix e)
