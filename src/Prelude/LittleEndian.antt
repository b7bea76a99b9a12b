-- ===== src/Prelude/LittleEndian.antt =====
-- Numbers as their bytes, the lowest first. A reader takes them off the front of its input.
use Prim.Native.Nat.{ℕ, zero, suc, ◌+◌, ◌*◌, ◌/◌, ◌%◌, ◌<◌}
use mathlib.Core.Path.{◌≡◌, refl, ap}
use mathlib.Core.List.{[], ◌∷◌, ◌++◌}
use native.Mathlib.Omega.{arith}
use nebula_kv.Prelude.ByteString.{Bytes}
use nebula_kv.Prelude.Result.{Result, ok, throw, runtime_error, ◌>>=◌, bind_returns}

-- The `count` low bytes of a number.
abbrev pub low_bytes : ℕ → ℕ → Bytes
low_bytes zero value = []
low_bytes (suc count) value = value % 256 ∷ low_bytes count (value / 256)

-- The bytes are below 256, so the `|=` of shifted bytes is a sum. Input that ends early is refused.
unfoldable pub read_low_bytes : ℕ → Bytes → Result (ℕ × Bytes)
read_low_bytes zero input = ok (0, input)
read_low_bytes (suc count) [] = throw runtime_error
read_low_bytes (suc count) (b ∷ rest) = do
  (value, left) ← read_low_bytes count rest
  ok (b + 256 * value, left)

-- The number has no more than `count` bytes.
abbrev pub Within : ℕ → ℕ → Type 0
Within zero v = v ≡ 0
Within (suc count) v = Within count (v / 256)

pub read_low_bytes-low_bytes :
    (count v : ℕ) (tail : Bytes)
    → Within count v
    → read_low_bytes count (low_bytes count v ++ tail) ≡ ok (v, tail)
unfolding read_low_bytes
read_low_bytes-low_bytes zero v tail h = ap (λ n. ok (n, tail)) {x = 0} {y = v} (omega (arith, h))
read_low_bytes-low_bytes (suc count) v tail h =
    rw (read_low_bytes-low_bytes count (v / 256) tail h)
      (ap (λ n. ok (n, tail)) {x = v % 256 + 256 * (v / 256)} {y = v} (omega arith))

abbrev pub AreBytes : Bytes → Type 0
AreBytes [] = Unit
AreBytes (b ∷ bs) = (b < 256) × AreBytes bs

pub low_bytes-read_low_bytes :
    (count v : ℕ) (input rest : Bytes)
    → AreBytes input
    → read_low_bytes count input ≡ ok (v, rest)
    → low_bytes count v ++ rest ≡ input
unfolding read_low_bytes
low_bytes-read_low_bytes zero v input rest a h = ground (arith, h)
low_bytes-read_low_bytes (suc count) v [] rest a h = absurd (cc h)
low_bytes-read_low_bytes (suc count) v (b ∷ bs) rest a h =
    let ((w, left), e, r) = bind_returns (read_low_bytes count bs) _ (v, rest) h in
    let q = low_bytes-read_low_bytes count w bs left a.1 e in
    let r0 : b + 256 * w ≡ v = ground (arith, r) in
    let r1 : left ≡ rest = ground (arith, r) in
    let d : v / 256 ≡ w = omega (arith, r0, a.0) in
    let m : v % 256 ≡ b = omega (arith, r0, a.0) in rw (m, d, ← r1, q) refl
