-- ===== src/Prelude/Decimal.antt =====
-- `std::setw(20) << std::setfill('0')`: a number with leading zeros up to a fixed count of digits.
use Prim.Native.Nat.{ℕ, zero, suc, ◌+◌, ◌/◌, ◌%◌, ◌<◌, ◌^◌}
use mathlib.Core.Path.{◌≡◌, refl}
use mathlib.Core.List.{[], ◌∷◌, ◌++◌}
use native.Mathlib.Omega.{arith}
use nebula_kv.Prelude.ByteString.{Bytes}
use nebula_kv.Prelude.Lists.{length, length-append}

-- The last `count` decimal digits, the lowest one last.
unfoldable pub digits : ℕ → ℕ → Bytes
digits zero value = []
digits (suc count) value = digits count (value / 10) ++ ((b'0' + value % 10) ∷ [])

unfoldable pub padded : ℕ → Bytes
unfolding digits
padded value = digits 20 value

abbrev Fits : ℕ → ℕ → Type 0
Fits zero v = v ≡ 0
Fits (suc count) v = Fits count (v / 10)

last_cancel : (xs ys : Bytes) (x y : ℕ) → xs ++ (x ∷ []) ≡ ys ++ (y ∷ []) → (xs ≡ ys) × (x ≡ y)
last_cancel [] [] x y h = ground (arith, h)
last_cancel [] (b ∷ []) x y h = absurd (cc h)
last_cancel [] (b ∷ c ∷ ys) x y h = absurd (cc h)
last_cancel (a ∷ []) [] x y h = absurd (cc h)
last_cancel (a ∷ b ∷ xs) [] x y h = absurd (cc h)
last_cancel (a ∷ xs) (b ∷ ys) x y h = ground (arith, last_cancel xs ys x y, h)

-- Numbers of at most as many digits are told apart.
digits_inj : (count v w : ℕ) → Fits count v → Fits count w → digits count v ≡ digits count w → v ≡ w
unfolding digits
digits_inj zero v w f g h = omega (arith, f, g)
digits_inj (suc count) v w f g h =
    let (q, r) = last_cancel (digits count (v / 10)) (digits count (w / 10)) _ _ h in
    let e = digits_inj count (v / 10) (w / 10) f g q in omega (arith, e, r)

length-digits : (count v : ℕ) → length (digits count v) ≡ count
unfolding digits
length-digits zero v = refl
length-digits (suc count) v = omega (
  arith,
  length-append (digits count (v / 10)) ((b'0' + v % 10) ∷ []),
  length-digits count (v / 10),
)

pub length-padded : (v : ℕ) → length (padded v) ≡ 20
unfolding padded
length-padded v = length-digits 20 v

pub padded_inj : (v w : ℕ) → v < 2 ^ 64 → w < 2 ^ 64 → padded v ≡ padded w → v ≡ w
unfolding padded
padded_inj v w f g h = digits_inj 20 v w (omega (arith, f)) (omega (arith, g)) h
