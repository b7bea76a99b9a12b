-- ===== src/Prelude/Result.antt =====
-- Exceptions as values, and methods that change an object and may throw on the way. The classes of
-- the standard library are kept; the messages are not.
use mathlib.Core.Bool.{Bool, true, false}
use mathlib.Core.Path.{◌≡◌, refl}
use mathlib.Core.Logic.{◌≢◌, ◌⊎◌, inl, inr}

pub data Exception : Type 0 where
  invalid_argument length_error logic_error runtime_error overflow_error : Exception

-- What a call leaves: the exception that ended it, or the value it returned.
pub data Result {ℓ} (A : Type ℓ) : Type ℓ where
  throw : Exception → Result A
  ok : A → Result A

infixl 5 ◌>>=◌
abbrev pub ◌>>=◌ {ℓ κ} : {A : Type ℓ} {B : Type κ} → Result A → (A → Result B) → Result B
throw x >>= next = throw x
ok a >>= next = next a

infixl 5 ◌>>◌
abbrev pub ◌>>◌ {ℓ κ} : {A : Type ℓ} {B : Type κ} → Result A → Result B → Result B
throw x >> last = throw x
ok _ >> last = last

-- `if (bad) { throw e; }`
abbrev pub throw_if : Bool → Exception → Result (Unit {0})
throw_if true e = throw e
throw_if false e = ok tt

-- A computation that throws nothing returns a value.
pub returns {ℓ} :
    {A : Type ℓ} (r : Result A) → ((e : Exception) → r ≢ throw e) → (a : A) × (r ≡ ok a)
returns (ok a) h = (a, refl)
returns (throw e) h = absurd (h e refl)

-- Two calls in a row return only if both do.
pub bind_returns {ℓ κ} :
    {A : Type ℓ} {B : Type κ} (r : Result A) (next : A → Result B) (b : B)
    → (r >>= next) ≡ ok b
    → (a : A) × (r ≡ ok a) × (next a ≡ ok b)
bind_returns (throw x) next b h = cc
bind_returns (ok a) next b h = (a, refl, h)

-- What a computation came to.
pub outcome {ℓ} :
    {A : Type ℓ} (r : Result A) → ((a : A) × (r ≡ ok a)) ⊎ ((e : Exception) × (r ≡ throw e))
outcome (ok a) = inl (a, refl)
outcome (throw e) = inr (e, refl)

pub throw_if_passes {ℓ} :
    {A : Type ℓ} (b : Bool) (e : Exception) (r : Result A) (a : A)
    → (throw_if b e >> r) ≡ ok a
    → (b ≡ false) × (r ≡ ok a)
throw_if_passes true e r a h = absurd (cc h)
throw_if_passes false e r a h = (refl, h)
