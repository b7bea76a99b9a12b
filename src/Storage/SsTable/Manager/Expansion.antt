-- ===== src/Storage/SsTable/Manager/Expansion.antt =====
-- The `while` loop of `select_level0_compaction_locked` (src/sstable_manager.cpp): it ends, and then no
-- reader joins the selection.
use nebula_kv.Prelude.{
  ℕ, zero, suc, ◌≤◌, ◌<◌, ◌≡◌, refl, ◌∙◌, Bytes, Bool, true, false, ◌||◌, beq, beq→eq, beq_self,
  List, [], ◌∷◌, ◌++◌, length, take, arith, if◌then◌else◌, Bool-cases, inl, inr,
}
use nebula_kv.Prelude.Members.{Among, Among-append}
use nebula_kv.Storage.SsTable.{TableFiles}
use nebula_kv.Storage.SsTable.Manager.{ManagedTable, path}
use nebula_kv.Storage.SsTable.Manager.Selection.{
  CompactionSelection, is_selected, widen, widen_all, add_selected, joins, expand_round, expand,
  after_round,
}

module _ {R : Type 0} (F : TableFiles R) where
  or_right : (a b : Bool) → b ≡ true → (a || b) ≡ true
  or_right a b h = ground arith

  pub Among-take :
      (t : ManagedTable R) (n : ℕ) (ts : List (ManagedTable R)) → Among t (take n ts) → Among t ts
  Among-take t zero ts m = absurd m
  Among-take t (suc n) [] m = m
  Among-take t (suc n) (u ∷ ts) (inl q) = inl q
  Among-take t (suc n) (u ∷ ts) (inr m) = inr (Among-take t n ts m)

  is_selected-append :
      (p : Bytes) (ts us : List (ManagedTable R))
      → is_selected F p (ts ++ us) ≡ (is_selected F p ts || is_selected F p us)
  unfolding is_selected
  is_selected-append p [] us = refl
  is_selected-append p (t ∷ ts) us = ground (arith, is_selected-append p ts us)

  pub is_selected_from :
      (p : Bytes) (ts : List (ManagedTable R))
      → is_selected F p ts ≡ true
      → (t : ManagedTable R) × Among t ts × (p ≡ path F t)
  unfolding is_selected
  is_selected_from p [] h = absurd (cc h)
  is_selected_from p (t ∷ ts) h = elim (Bool-cases (beq p (path F t))) [
    | inl q ↦ (t, inl refl, beq→eq p (path F t) q)
    | inr q ↦
        let h1 : is_selected F p ts ≡ true = ground (arith, h, q) in
        let (u, m, e) = is_selected_from p ts h1 in (u, inr m, e)
  ]

  pub widen_all-selected :
      (ts : List (ManagedTable R)) (s : CompactionSelection R)
      → (widen_all F ts s).selected ≡ s.selected
  unfolding widen_all
  widen_all-selected [] s = refl
  widen_all-selected (t ∷ ts) s = widen_all-selected ts (widen F t s)

  abbrev pub AllAmong : List (ManagedTable R) → List (ManagedTable R) → Type 0
  AllAmong ts us = (t : ManagedTable R) → Among t ts → Among t us

  add_selected-AllAmong :
      (t : ManagedTable R) (s : CompactionSelection R) (readers : List (ManagedTable R))
      → Among t readers
      → AllAmong s.selected readers
      → AllAmong (add_selected F t s).selected readers
  unfolding add_selected
  add_selected-AllAmong t s readers m h u n = elim (Among-append u s.selected (t ∷ []) n) [
    | inl a ↦ h u a
    | inr (inl q) ↦ rw q m
    | inr (inr x) ↦ absurd x
  ]

  expand_round-AllAmong :
      (ts : List (ManagedTable R)) (s : CompactionSelection R) (readers : List (ManagedTable R))
      → AllAmong ts readers
      → AllAmong s.selected readers
      → AllAmong (expand_round F ts s).0.selected readers
  unfolding expand_round
  expand_round-AllAmong [] s readers h a = a
  expand_round-AllAmong (t ∷ ts) s readers h a =
      let rest : AllAmong ts readers = λ u m. h u (inr m) in
      elim (Bool-cases (joins F t s)) [
        | inl p ↦
            rw (expand_round, p)
              (expand_round-AllAmong ts (add_selected F t s) readers rest
                (add_selected-AllAmong t s readers (h t (inl refl)) a))
        | inr p ↦ rw (expand_round, p) (expand_round-AllAmong ts s readers rest a)
      ]

  after_round-expanded :
      (again : CompactionSelection R → CompactionSelection R) (x : CompactionSelection R × Bool)
      → x.1 ≡ true
      → after_round F again x ≡ again x.0
  after_round-expanded again (s, true) h = refl
  after_round-expanded again (s, false) h = absurd (cc h)

  after_round-settled :
      (again : CompactionSelection R → CompactionSelection R) (x : CompactionSelection R × Bool)
      → x.1 ≡ false
      → after_round F again x ≡ x.0
  after_round-settled again (s, true) h = absurd (cc h)
  after_round-settled again (s, false) h = refl

  pub expand-AllAmong :
      (fuel : ℕ) (readers : List (ManagedTable R)) (s : CompactionSelection R)
      → AllAmong s.selected readers
      → AllAmong (expand F fuel readers s).selected readers
  unfolding expand
  expand-AllAmong zero readers s a = a
  expand-AllAmong (suc fuel) readers s a =
      let b = expand_round-AllAmong readers s readers (λ t m. m) a in
      elim (Bool-cases (expand_round F readers s).1) [
        | inl p ↦
            rw (after_round-expanded (expand F fuel readers) (expand_round F readers s) p)
              (expand-AllAmong fuel readers (expand_round F readers s).0 b)
        | inr p ↦ rw (after_round-settled (expand F fuel readers) (expand_round F readers s) p) b
      ]

  -- How many of the readers are not selected.
  unfoldable left_out : List (ManagedTable R) → List (ManagedTable R) → ℕ
  left_out selected [] = 0
  left_out selected (t ∷ ts) =
      let rest = left_out selected ts in
      if is_selected F (path F t) selected then rest else suc rest

  is_selected_more :
      (p : Bytes) (ts : List (ManagedTable R)) (t : ManagedTable R)
      → is_selected F p (ts ++ (t ∷ [])) ≡ (is_selected F p ts || beq p (path F t))
  unfolding is_selected
  is_selected_more p ts t = is_selected-append p ts (t ∷ []) ∙ ground arith

  left_out_more :
      (t : ManagedTable R) (selected ts : List (ManagedTable R))
      → left_out (selected ++ (t ∷ [])) ts ≤ left_out selected ts
  unfolding left_out
  left_out_more t selected [] = omega arith
  left_out_more t selected (u ∷ ts) =
      ground (arith, is_selected_more (path F u) selected t, left_out_more t selected ts)

  left_out_less :
      (t : ManagedTable R) (selected ts : List (ManagedTable R))
      → Among t ts
      → is_selected F (path F t) selected ≡ false
      → left_out (selected ++ (t ∷ [])) ts < left_out selected ts
  unfolding left_out
  left_out_less t selected [] m h = absurd m
  left_out_less t selected (u ∷ ts) (inl q) h =
      let now : is_selected F (path F u) (selected ++ (t ∷ [])) ≡ true =
        is_selected_more (path F u) selected t
        ∙ or_right (is_selected F (path F u) selected) (beq (path F u) (path F t))
            (rw q (beq_self (path F u))) in
      let before : is_selected F (path F u) selected ≡ false = rw q at h in
      rw (now, before) (omega (arith, left_out_more t selected ts))
  left_out_less t selected (u ∷ ts) (inr m) h =
      ground (arith, is_selected_more (path F u) selected t, left_out_less t selected ts m h)

  joins_new :
      (t : ManagedTable R) (s : CompactionSelection R)
      → joins F t s ≡ true
      → is_selected F (path F t) s.selected ≡ false
  unfolding joins
  joins_new t s h = ground arith

  -- A round that says it expanded has fewer readers left out; one that does not leaves all as it was.
  expand_round_less :
      (ts : List (ManagedTable R)) (s : CompactionSelection R) (readers : List (ManagedTable R))
      → AllAmong ts readers
      → (left_out (expand_round F ts s).0.selected readers ≤ left_out s.selected readers)
        × ((expand_round F ts s).1 ≡ true
            → left_out (expand_round F ts s).0.selected readers < left_out s.selected readers)
        × ((expand_round F ts s).1 ≡ false → (expand_round F ts s).0 ≡ s)
  unfolding expand_round
  expand_round_less [] s readers h = (omega arith, λ e. absurd (cc e), λ e. refl)
  expand_round_less (t ∷ ts) s readers h =
      let rest : AllAmong ts readers = λ u m. h u (inr m) in
      elim (Bool-cases (joins F t s)) [
        | inl p ↦
            let ih = expand_round_less ts (add_selected F t s) readers rest in
            let less : left_out (add_selected F t s).selected readers
                < left_out s.selected readers =
              unfold add_selected in
              left_out_less t s.selected readers (h t (inl refl)) (joins_new t s p) in
            rw (expand_round, p)
              (omega (arith, less, ih.0), λ e. omega (arith, less, ih.0), λ e. absurd (cc e))
        | inr p ↦ rw (expand_round, p) (expand_round_less ts s readers rest)
      ]

  -- With fuel for every reader that is left out the loop ends by its test.
  expand_ends :
      (fuel : ℕ) (readers : List (ManagedTable R)) (s : CompactionSelection R)
      → left_out s.selected readers < fuel
      → (expand_round F readers (expand F fuel readers s)).1 ≡ false
  unfolding expand
  expand_ends zero readers s h = absurd (omega (arith, h))
  expand_ends (suc fuel) readers s h =
      let (l, less, same) = expand_round_less readers s readers (λ t m. m) in
      elim (Bool-cases (expand_round F readers s).1) [
        | inl p ↦
            rw (after_round-expanded (expand F fuel readers) (expand_round F readers s) p)
              (expand_ends fuel readers (expand_round F readers s).0 (omega (arith, less p, h)))
        | inr p ↦
            rw (after_round-settled (expand F fuel readers) (expand_round F readers s) p, same p) p
      ]

  left_out-le : (selected ts : List (ManagedTable R)) → left_out selected ts ≤ length ts
  unfolding left_out
  left_out-le selected [] = omega arith
  left_out-le selected (t ∷ ts) = ground (arith, left_out-le selected ts)

  -- After a round that took nothing, no reader joins.
  none_joins :
      (ts : List (ManagedTable R)) (s : CompactionSelection R)
      → (expand_round F ts s).1 ≡ false
      → (t : ManagedTable R) → Among t ts
      → joins F t s ≡ false
  unfolding expand_round
  none_joins [] s h t m = absurd m
  none_joins (u ∷ ts) s h t m = elim (Bool-cases (joins F u s)) [
    | inl p ↦ absurd (cc (rw (expand_round, p) at h))
    | inr p ↦
        let h1 : (expand_round F ts s).1 ≡ false = rw (expand_round, p) at h in
        elim m [ inl q ↦ rw q p | inr n ↦ none_joins ts s h1 t n ]
  ]

  pub expand_closed :
      (readers : List (ManagedTable R)) (s : CompactionSelection R) (t : ManagedTable R)
      → Among t readers
      → joins F t (expand F (suc (length readers)) readers s) ≡ false
  expand_closed readers s t m =
      none_joins readers (expand F (suc (length readers)) readers s)
        (expand_ends (suc (length readers)) readers s
          (omega (arith, left_out-le s.selected readers)))
        t m
