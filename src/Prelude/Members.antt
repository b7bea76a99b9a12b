-- ===== src/Prelude/Members.antt =====
-- Membership, `std::sort` with a comparison as insertion, and filters.
use Prim.Native.Nat.{suc}
use mathlib.Core.Path.{◌≡◌, refl}
use mathlib.Core.Logic.{◌⊎◌, inl, inr}
use mathlib.Core.Bool.{Bool, true}
use mathlib.Core.List.{List, [], ◌∷◌, ◌++◌}
use native.Mathlib.Omega.{arith}
use nebula_kv.Prelude.Tests.{if◌then◌else◌, Bool-cases}
use nebula_kv.Prelude.Lists.{length}

module _ {A : Type 0} where
  abbrev pub Among : A → List A → Type 0
  Among x [] = ⊥
  Among x (y ∷ ys) = (x ≡ y) ⊎ Among x ys

  unfoldable pub filter : (A → Bool) → List A → List A
  filter p [] = []
  filter p (x ∷ xs) = let rest = filter p xs in if p x then x ∷ rest else rest

  unfoldable pub sort_in : (A → A → Bool) → A → List A → List A
  sort_in before x [] = x ∷ []
  sort_in before x (y ∷ ys) =
      let rest = sort_in before x ys in if before y x then y ∷ rest else x ∷ y ∷ ys

  -- `std::sort`; elements that the comparison does not tell apart may come in any order.
  unfoldable pub sort : (A → A → Bool) → List A → List A
  unfolding sort_in
  sort before [] = []
  sort before (x ∷ xs) = sort_in before x (sort before xs)

  pub Among-append : (x : A) (xs ys : List A) → Among x (xs ++ ys) → Among x xs ⊎ Among x ys
  Among-append x [] ys m = inr m
  Among-append x (z ∷ zs) ys (inl e) = inl (inl e)
  Among-append x (z ∷ zs) ys (inr m) = elim (Among-append x zs ys m) [
    | inl n ↦ inl (inr n)
    | inr n ↦ inr n
  ]

  pub Among-left : (x : A) (xs ys : List A) → Among x xs → Among x (xs ++ ys)
  Among-left x [] ys m = absurd m
  Among-left x (z ∷ zs) ys (inl e) = inl e
  Among-left x (z ∷ zs) ys (inr m) = inr (Among-left x zs ys m)

  pub Among-right : (x : A) (xs ys : List A) → Among x ys → Among x (xs ++ ys)
  Among-right x [] ys m = m
  Among-right x (z ∷ zs) ys m = inr (Among-right x zs ys m)

  pub Among-filter :
      (p : A → Bool) (x : A) (xs : List A) → Among x (filter p xs) → Among x xs × (p x ≡ true)
  unfolding filter
  Among-filter p x [] m = absurd m
  Among-filter p x (y ∷ ys) m = elim (Bool-cases (p y)) [
    | inl e ↦
        let k : Among x (y ∷ filter p ys) = rw (e, filter) at m in
        elim k [
          | inl q ↦ (inl q, rw q e)
          | inr n ↦ let (i, t) = Among-filter p x ys n in (inr i, t)
        ]
    | inr e ↦ let (i, t) = Among-filter p x ys (rw (e, filter) at m) in (inr i, t)
  ]

  pub filter-Among :
      (p : A → Bool) (x : A) (xs : List A) → Among x xs → p x ≡ true → Among x (filter p xs)
  unfolding filter
  filter-Among p x [] m e = m
  filter-Among p x (y ∷ ys) (inl q) e = rw (← q, e) (inl refl)
  filter-Among p x (y ∷ ys) (inr m) e = elim (Bool-cases (p y)) [
    | inl f ↦ rw f (inr (filter-Among p x ys m e))
    | inr f ↦ rw f (filter-Among p x ys m e)
  ]

  Among-sort_in :
      (b : A → A → Bool) (x y : A) (ys : List A) → Among x (sort_in b y ys) → Among x (y ∷ ys)
  unfolding sort_in
  Among-sort_in b x y [] m = m
  Among-sort_in b x y (z ∷ zs) m = elim (Bool-cases (b z y)) [
    | inl e ↦
        let k : Among x (z ∷ sort_in b y zs) = rw (e, sort_in) at m in
        elim k [
          | inl q ↦ inr (inl q)
          | inr n ↦ elim (Among-sort_in b x y zs n) [ inl q ↦ inl q | inr k ↦ inr (inr k) ]
        ]
    | inr e ↦ rw (e, sort_in) at m
  ]

  sort_in-Among :
      (b : A → A → Bool) (x y : A) (ys : List A) → Among x (y ∷ ys) → Among x (sort_in b y ys)
  unfolding sort_in
  sort_in-Among b x y [] m = m
  sort_in-Among b x y (z ∷ zs) m = elim (Bool-cases (b z y)) [
    | inl e ↦ rw e (elim m [
      | inl q ↦ inr (sort_in-Among b x y zs (inl q))
      | inr (inl q) ↦ inl q
      | inr (inr n) ↦ inr (sort_in-Among b x y zs (inr n))
    ])
    | inr e ↦ rw e m
  ]

  pub Among-sort : (b : A → A → Bool) (x : A) (xs : List A) → Among x (sort b xs) → Among x xs
  unfolding sort
  Among-sort b x [] m = m
  Among-sort b x (y ∷ ys) m = elim (Among-sort_in b x y (sort b ys) m) [
    | inl q ↦ inl q
    | inr n ↦ inr (Among-sort b x ys n)
  ]

  pub sort-Among : (b : A → A → Bool) (x : A) (xs : List A) → Among x xs → Among x (sort b xs)
  unfolding sort
  sort-Among b x [] m = m
  sort-Among b x (y ∷ ys) (inl q) = sort_in-Among b x y (sort b ys) (inl q)
  sort-Among b x (y ∷ ys) (inr n) = sort_in-Among b x y (sort b ys) (inr (sort-Among b x ys n))

  length-sort_in :
      (b : A → A → Bool) (x : A) (ys : List A) → length (sort_in b x ys) ≡ suc (length ys)
  unfolding sort_in
  length-sort_in b x [] = refl
  length-sort_in b x (y ∷ ys) = ground (arith, length-sort_in b x ys)

  pub length-sort : (b : A → A → Bool) (xs : List A) → length (sort b xs) ≡ length xs
  unfolding sort
  length-sort b [] = refl
  length-sort b (x ∷ xs) = ground (arith, length-sort_in b x (sort b xs), length-sort b xs)
