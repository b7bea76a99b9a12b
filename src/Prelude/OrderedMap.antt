-- ===== src/Prelude/OrderedMap.antt =====
-- `std::map<std::string, V, std::less<>>` as the list of its entries in key order.
use nebula_kv.Prelude.Tests.{if◌then◌else◌}
use nebula_kv.Prelude.Lists.{length}
use nebula_kv.Prelude.ByteString.{Bytes, beq, blt, beq_iff, blt_total, blt_trans, blt_irrefl}
use Prim.Native.Nat.{suc}
use mathlib.Core.Path.{◌≡◌, refl}
use mathlib.Core.Bool.{true}
use mathlib.Core.Option.{Option, none, some}
use mathlib.Core.List.{List, [], ◌∷◌}
use native.Mathlib.Omega.{arith}

abbrev pub OrderedMap {ℓ} : Type ℓ → Type ℓ
OrderedMap V = List (Bytes × V)

module _ {ℓ} {V : Type ℓ} where
  unfoldable pub find : Bytes → OrderedMap V → Option V
  find k [] = none
  find k ((j, v) ∷ m) = if beq k j then some v else find k m

  unfoldable pub insert_or_assign : Bytes → V → OrderedMap V → OrderedMap V
  insert_or_assign k v [] = (k, v) ∷ []
  insert_or_assign k v ((j, w) ∷ m) =
      if beq k j
      then (j, v) ∷ m
      else if blt k j
      then (k, v) ∷ (j, w) ∷ m
      else (j, w) ∷ insert_or_assign k v m

  unfoldable pub erase : Bytes → OrderedMap V → OrderedMap V
  erase k [] = []
  erase k ((j, w) ∷ m) = let rest = erase k m in if beq k j then rest else (j, w) ∷ rest

  pub find-insert_or_assign :
      (k j : Bytes) (v : V) (m : OrderedMap V)
      → find j (insert_or_assign k v m) ≡ (if beq j k then some v else find j m)
  unfolding find insert_or_assign
  find-insert_or_assign k j v [] = refl
  find-insert_or_assign k j v ((i, w) ∷ m) =
      ground (arith, beq_iff k i, beq_iff j k, beq_iff j i, find-insert_or_assign k j v m)

  pub find-erase :
      (k j : Bytes) (m : OrderedMap V) → find j (erase k m) ≡ (if beq j k then none else find j m)
  unfolding find erase
  find-erase k j [] = ground arith
  find-erase k j ((i, w) ∷ m) =
      ground (arith, beq_iff k i, beq_iff j k, beq_iff j i, find-erase k j m)

  -- Every key of the map is above `k`.
  abbrev pub Above : Bytes → OrderedMap V → Type 0
  Above k [] = Unit
  Above k ((j, v) ∷ m) = (blt k j ≡ true) × Above k m

  abbrev pub IsSorted : OrderedMap V → Type 0
  IsSorted [] = Unit
  IsSorted ((j, v) ∷ m) = Above j m × IsSorted m

  pub Above-trans : (k j : Bytes) (m : OrderedMap V) → blt k j ≡ true → Above j m → Above k m
  Above-trans k j [] h a = tt
  Above-trans k j ((i, v) ∷ m) h a = (blt_trans k j i h a.0, Above-trans k j m h a.1)

  Above-insert :
      (i k : Bytes) (v : V) (m : OrderedMap V)
      → blt i k ≡ true
      → Above i m
      → Above i (insert_or_assign k v m)
  unfolding insert_or_assign
  Above-insert i k v [] h a = (h, tt)
  Above-insert i k v ((j, w) ∷ m) h a = ground (arith, Above-insert i k v m)

  -- Writing an entry keeps the keys in order.
  pub insert_or_assign-IsSorted :
      (k : Bytes) (v : V) (m : OrderedMap V) → IsSorted m → IsSorted (insert_or_assign k v m)
  unfolding insert_or_assign
  insert_or_assign-IsSorted k v [] s = (tt, tt)
  insert_or_assign-IsSorted k v ((j, w) ∷ m) s = ground (
    arith,
    Above-trans k j m,
    blt_total k j,
    Above-insert j k v m,
    insert_or_assign-IsSorted k v m,
  )

  Above-erase : (i k : Bytes) (m : OrderedMap V) → Above i m → Above i (erase k m)
  unfolding erase
  Above-erase i k [] a = tt
  Above-erase i k ((j, w) ∷ m) a = ground (arith, Above-erase i k m)

  -- Removing an entry keeps the keys in order.
  pub erase-IsSorted : (k : Bytes) (m : OrderedMap V) → IsSorted m → IsSorted (erase k m)
  unfolding erase
  erase-IsSorted k [] s = tt
  erase-IsSorted k ((j, w) ∷ m) s = ground (arith, Above-erase j k m, erase-IsSorted k m)

  pub find-Above : (k : Bytes) (m : OrderedMap V) → Above k m → find k m ≡ none
  unfolding find
  find-Above k [] a = refl
  find-Above k ((j, w) ∷ m) a = ground (arith, beq_iff k j, blt_irrefl k, find-Above k m)

  pub erase_absent : (k : Bytes) (m : OrderedMap V) → find k m ≡ none → erase k m ≡ m
  unfolding find erase
  erase_absent k [] h = refl
  erase_absent k ((j, w) ∷ m) h = ground (arith, erase_absent k m)

  -- A new key makes the map longer by one; a key that is there does not.
  pub length-insert_or_assign :
      (k : Bytes) (v : V) (m : OrderedMap V)
      → IsSorted m
      → length (insert_or_assign k v m)
        ≡ (elim (find k m) [ none ↦ suc (length m) | some _ ↦ length m ])
  unfolding find insert_or_assign
  length-insert_or_assign k v [] s = refl
  length-insert_or_assign k v ((j, w) ∷ m) s =
      ground (arith, find-Above k m, Above-trans k j m, length-insert_or_assign k v m)

  -- Removing a key that is there makes the map shorter by one.
  pub length-erase :
      (k : Bytes) (m : OrderedMap V)
      → IsSorted m
      → length m
        ≡ (elim (find k m) [ none ↦ length (erase k m) | some _ ↦ suc (length (erase k m)) ])
  unfolding find erase
  length-erase k [] s = refl
  length-erase k ((j, w) ∷ m) s =
      ground (arith, beq_iff k j, find-Above j m, erase_absent k m, length-erase k m)
