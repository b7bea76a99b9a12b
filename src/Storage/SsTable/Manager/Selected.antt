-- ===== src/Storage/SsTable/Manager/Selected.antt =====
-- Which tables a compaction takes (`select_level0_compaction_locked` of src/sstable_manager.cpp), and
-- which it leaves.
use nebula_kv.Prelude.{
  ℕ, suc, ◌≡◌, refl, ap, Bool, false, not, ◌&&◌, ◌||◌, List, [], ◌∷◌, length, take, arith,
  if◌then◌else◌, Bool-cases, if_true, if_false, ◌⊎◌, inl, inr, ltb, ◌==◌, min,
}
use nebula_kv.Prelude.Members.{Among, filter, sort, Among-filter, filter-Among, Among-sort}
use nebula_kv.Storage.SsTable.{TableFiles}
use nebula_kv.Storage.SsTable.Manager.{ManagedTable, SsTableManager, path}
use nebula_kv.Storage.SsTable.Manager.Selection.{
  CompactionSelection, is_older, is_selected, joins, expand, initial_selection, with_unselected,
  select_level0_compaction, no_selection, level0_tables,
}
use nebula_kv.Storage.SsTable.Manager.Expansion.{
  Among-take, AllAmong, expand-AllAmong, widen_all-selected, is_selected_from, expand_closed,
}

module _ {R : Type 0} (F : TableFiles R) where
  initial_selection-AllAmong :
      (ts : List (ManagedTable R)) → AllAmong F (initial_selection F ts).selected ts
  unfolding initial_selection
  initial_selection-AllAmong [] t m = absurd m
  initial_selection-AllAmong (u ∷ ts) t m = rw (widen_all-selected F) at m

  -- How the selected and the other tables make up the readers.
  pub record Split (readers selected unselected : List (ManagedTable R)) : Type 0 where
    pub selected_in : AllAmong F selected readers
    pub unselected_in : AllAmong F unselected readers
    pub either : (t : ManagedTable R) → Among t readers → Among t selected ⊎ Among t unselected

  abbrev pub Distinct : List (ManagedTable R) → Type 0
  Distinct ts = (t u : ManagedTable R) → Among t ts → Among u ts → path F t ≡ path F u → t ≡ u

  -- The tables whose path is not selected.
  abbrev pub others : List (ManagedTable R) → List (ManagedTable R) → List (ManagedTable R)
  others selected readers = filter (λ t. not (is_selected F (path F t) selected)) readers

  pub others-Split :
      (selected readers : List (ManagedTable R))
      → Distinct readers
      → AllAmong F selected readers
      → Split readers selected (others selected readers)
  others-Split selected readers d a = record {
    selected_in = a;
    unselected_in = λ t m. (Among-filter _ t readers m).0;
    either = λ t m. elim (Bool-cases (is_selected F (path F t) selected)) [
      | inl p ↦
          let (u, n, e) = is_selected_from F (path F t) selected p in inl (rw (d t u m (a u n) e) n)
      | inr p ↦ inr (filter-Among _ t readers m (ground (arith, p)))
    ];
  }

  -- The loop that expands a selection ends within its fuel on every manager: either nothing is
  -- selected, or no reader is left that would join, which is a level-1 table outside of the
  -- selection that overlaps its range of keys.
  pub select_level0_compaction_closed :
      (force_all : Bool) (m : SsTableManager R) (t : ManagedTable R)
      → Among t m.readers
      → let s = select_level0_compaction F force_all m in (s.selected ≡ []) ⊎ (joins F t s ≡ false)
  unfolding select_level0_compaction with_unselected joins
  select_level0_compaction_closed force_all m t n =
      let zero_level = level0_tables F m.readers in
      let count =
        if force_all
        then length zero_level
        else min (length zero_level) m.level0_compaction_max_tables in
      let first = initial_selection F (take count (sort (is_older F) zero_level)) in
      let final = expand F (suc (length m.readers)) m.readers first in
      elim (Bool-cases (
        length zero_level == 0
        || (not force_all && ltb (length zero_level) m.level0_compaction_trigger))) [
          | inl p ↦ inl (ap (λ (s : CompactionSelection R). s.selected) (if_true _ _ _ p))
          | inr p ↦
              rw (if_false _ (no_selection F) (with_unselected F m.readers final) p)
                (inr (expand_closed F m.readers first t n))
        ]

  first_in :
      (count : ℕ) (readers : List (ManagedTable R))
      → AllAmong F
          (initial_selection F (take count (sort (is_older F) (level0_tables F readers)))).selected
          readers
  first_in count readers t m =
      let n = initial_selection-AllAmong _ t m in
      (Among-filter _ t readers (Among-sort (is_older F) t _ (Among-take F t count _ n))).0

  -- On a manager whose readers have paths of their own, either nothing is selected, or each
  -- selected and each unselected table is a reader, each reader is one of them, and the unselected
  -- ones are those whose path is not selected, in their order.
  pub select_level0_compaction-Split :
      (force_all : Bool) (m : SsTableManager R)
      → Distinct m.readers
      → let s = select_level0_compaction F force_all m in
        (s.selected ≡ [])
        ⊎ (Split m.readers s.selected s.unselected × (s.unselected ≡ others s.selected m.readers))
  unfolding select_level0_compaction with_unselected
  select_level0_compaction-Split force_all m d =
      let zero_level = level0_tables F m.readers in
      let count =
        if force_all
        then length zero_level
        else min (length zero_level) m.level0_compaction_max_tables in
      let first = initial_selection F (take count (sort (is_older F) zero_level)) in
      let final = expand F (suc (length m.readers)) m.readers first in
      elim (Bool-cases (
        length zero_level == 0
        || (not force_all && ltb (length zero_level) m.level0_compaction_trigger))) [
          | inl p ↦ inl (ap (λ (s : CompactionSelection R). s.selected) (if_true _ _ _ p))
          | inr p ↦ rw (if_false _ (no_selection F) (with_unselected F m.readers final) p) (
              inr (
                others-Split final.selected m.readers d (
                    expand-AllAmong F (suc (length m.readers)) m.readers first
                      (first_in count m.readers)),
                refl,
              ))
        ]
