-- ===== src/Prelude/ByteString.antt =====
-- `std::string` as the list of its bytes: equality and the order of `std::less<>`, which compares
-- the bytes as unsigned numbers.
use Prim.Native.Nat.{ℕ}
use mathlib.Core.Path.{◌≡◌, refl}
use mathlib.Core.Logic.{◌↔◌}
use mathlib.Core.Bool.{Bool, true, false, ◌&&◌}
use mathlib.Core.List.{List, [], ◌∷◌}
use native.Mathlib.Omega.{arith}
use nebula_kv.Prelude.Tests.{ltb, ◌==◌, if◌then◌else◌}

abbrev pub Bytes : Type 0
Bytes = List ℕ

unfoldable pub beq : Bytes → Bytes → Bool
beq [] [] = true
beq (x ∷ xs) (y ∷ ys) = x == y && beq xs ys
beq _ _ = false

unfoldable pub blt : Bytes → Bytes → Bool
blt [] [] = false
blt [] (y ∷ ys) = true
blt (x ∷ xs) [] = false
blt (x ∷ xs) (y ∷ ys) = if x == y then blt xs ys else ltb x y

pub beq→eq : (k j : Bytes) → beq k j ≡ true → k ≡ j
unfolding beq
beq→eq [] [] h = refl
beq→eq [] (y ∷ ys) h = ground arith
beq→eq (x ∷ xs) [] h = ground arith
beq→eq (x ∷ xs) (y ∷ ys) h = ground (arith, beq→eq xs ys)

pub beq_self : (k : Bytes) → beq k k ≡ true
unfolding beq
beq_self [] = refl
beq_self (x ∷ xs) = ground (arith, beq_self xs)

pub eq→beq : (k j : Bytes) → k ≡ j → beq k j ≡ true
eq→beq k j e = ground (arith, beq_self k)

pub beq_iff : (k j : Bytes) → (beq k j ≡ true) ↔ (k ≡ j)
beq_iff k j = (beq→eq k j, eq→beq k j)

-- The order is total: keys that are neither equal nor in order are in the other order.
pub blt_total : (k j : Bytes) → beq k j ≡ false → blt k j ≡ false → blt j k ≡ true
unfolding beq blt
blt_total [] [] p q = ground arith
blt_total [] (y ∷ ys) p q = ground arith
blt_total (x ∷ xs) [] p q = refl
blt_total (x ∷ xs) (y ∷ ys) p q = ground (arith, blt_total xs ys)

pub blt_trans : (a b c : Bytes) → blt a b ≡ true → blt b c ≡ true → blt a c ≡ true
unfolding blt
blt_trans [] [] c p q = ground arith
blt_trans [] (y ∷ ys) [] p q = ground arith
blt_trans [] (y ∷ ys) (z ∷ zs) p q = refl
blt_trans (x ∷ xs) [] c p q = ground arith
blt_trans (x ∷ xs) (y ∷ ys) [] p q = ground arith
blt_trans (x ∷ xs) (y ∷ ys) (z ∷ zs) p q = ground (arith, blt_trans xs ys zs)

pub blt_irrefl : (k : Bytes) → blt k k ≡ false
unfolding blt
blt_irrefl [] = refl
blt_irrefl (x ∷ xs) = ground (arith, blt_irrefl xs)
