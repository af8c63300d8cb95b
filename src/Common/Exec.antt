-- ===== src/Common/Exec.antt =====
-- Methods that call the API server and may return an error. What was written before an error stays
-- written, so the state comes back beside the error too.
use Prim.Native.String.{String}
use mathlib.Core.Path.{◌≡◌, refl}
use native.Mathlib.Omega.{arith}
use kubeshark_operator.Common.Outcome.{Result, ok, err, wrapped}

abbrev pub Exec {ℓ} : Type ℓ → Type ℓ → Type ℓ
Exec S A = S → Result A × S

module _ {ℓ} {S A : Type ℓ} where
  -- `return a, nil`
  unfoldable pub pure : A → Exec S A
  pure a state = (ok a, state)

  -- A method whose error is wrapped.
  unfoldable pub wrap_error : String → Exec S A → Exec S A
  wrap_error prefix m state = let (out, after) = m state in (wrapped prefix out, after)

  -- What follows a call, by the call's result.
  abbrev pub continue : {B : Type ℓ} → Result A → (A → Exec S B) → Exec S B
  continue (err e) next state = (err e, state)
  continue (ok a) next state = next a state

module _ {ℓ} {S A B : Type ℓ} where
  infixl 10 ◌>>=◌ ◌>>◌
  -- `if err := m(); err != nil { return err }`, and the rest
  unfoldable pub ◌>>=◌ : Exec S A → (A → Exec S B) → Exec S B
  ◌>>=◌ first next state = let (out, after) = first state in continue out next after

  abbrev pub ◌>>◌ : Exec S A → Exec S B → Exec S B
  first >> second = first >>= λ _. second

-- A sequence that returns has returned from both parts.
pub >>-ok {ℓ} :
    {S A B : Type ℓ} (m : Exec S A) (n : Exec S B) (s : S) {b : B}
    → ((m >> n) s).0 ≡ ok b
    → (a : A) × ((m s).0 ≡ ok a) × ((n (m s).1).0 ≡ ok b) × ((m >> n) s ≡ n (m s).1)
unfolding ◌>>=◌
>>-ok {S} {A} {B} m n s {b} h = let (r, s') = m s in split r s' h
  where
    split :
        (r : Result A) (t : S)
        → (continue r (λ _. n) t).0 ≡ ok b
        → (a : A) × (r ≡ ok a) × ((n t).0 ≡ ok b) × (continue r (λ _. n) t ≡ n t)
    split (ok a) t h = (a, refl, h, refl)
    split (err e) t h = cc

pub wrap_error-ok {ℓ} :
    {S A : Type ℓ} (prefix : String) (m : Exec S A) (s : S) {a : A}
    → (wrap_error prefix m s).0 ≡ ok a
    → (m s).0 ≡ ok a
unfolding wrap_error
wrap_error-ok prefix m s h = ground arith
