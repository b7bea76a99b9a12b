-- ===== src/Prelude/Exec.antt =====
-- Methods that change an object of type `S` and may throw. The object comes back beside the exception
-- too, with what the method had written before it threw.
use mathlib.Core.Path.{◌≡◌, refl}
use nebula_kv.Prelude.Result.{Result, ok, throw}

abbrev pub Exec {ℓ κ} : Type ℓ → Type κ → Type (ℓ ⊔ κ)
Exec S A = S → Result A × S

module _ {ℓ κ μ} {S : Type ℓ} {A : Type κ} {B : Type μ} where
  -- The statements after a call, which run only if it returned.
  abbrev pub resume : (A → Exec S B) → Result A × S → Result B × S
  resume next (throw x, s) = (throw x, s)
  resume next (ok a, s) = next a s

  pub resume_ext :
      (f g : A → Exec S B) (x : Result A × S)
      → ((a : A) (s : S) → f a s ≡ g a s)
      → resume f x ≡ resume g x
  resume_ext f g (throw e, s) h = refl
  resume_ext f g (ok a, s) h = h a s

  -- Two calls in a row return only if both do.
  pub resume_returns :
      (f : A → Exec S B) (x : Result A × S) (b : B) (s : S)
      → resume f x ≡ (ok b, s)
      → (a : A) × (s1 : S) × (x ≡ (ok a, s1)) × (f a s1 ≡ (ok b, s))
  resume_returns f (throw e, s1) b s h = absurd (cc h)
  resume_returns f (ok a, s1) b s h = (a, s1, refl, h)
