-- ===== src/Storage/SsTable/Manager/Selection.antt =====
-- `SSTableManager::select_level0_compaction_locked` of src/sstable_manager.cpp. The set of selected paths
-- is that of the selected tables. The `while` loop runs on fuel, one more than the readers: every round
-- but the last selects one of them that was not selected.
use nebula_kv.Prelude.{
  ℕ, zero, suc, Bytes, beq, blt, Bool, true, false, not, ◌&&◌, ◌||◌, List, [], ◌∷◌, ◌++◌, ltb, ◌==◌,
  min, length, take, if◌then◌else◌,
}
use nebula_kv.Prelude.Members.{filter, sort}
use nebula_kv.Storage.SsTable.{TableFiles}
use nebula_kv.Storage.SsTable.Manager.{
  ManagedTable, SsTableManager, is_level1, ranges_overlap, metadata, path,
}

pub record CompactionSelection (R : Type 0) : Type 0 where
  pub selected : List (ManagedTable R)
  pub unselected : List (ManagedTable R)
  pub smallest_key : Bytes
  pub largest_key : Bytes

-- `std::min` and `std::max` on keys.
abbrev pub min_key : Bytes → Bytes → Bytes
min_key a b = if blt b a then b else a

abbrev pub max_key : Bytes → Bytes → Bytes
max_key a b = if blt a b then b else a

module _ {R : Type 0} (F : TableFiles R) where
  abbrev pub no_selection : CompactionSelection R
  no_selection = record { selected = []; unselected = []; smallest_key = []; largest_key = [] }

  -- The comparison of the level-0 tables: the oldest first.
  unfoldable pub is_older : ManagedTable R → ManagedTable R → Bool
  is_older left right =
      let l = metadata F left in
      let r = metadata F right in
      if l.max_sequence_number == r.max_sequence_number
      then ltb l.generation r.generation
      else ltb l.max_sequence_number r.max_sequence_number

  unfoldable pub is_selected : Bytes → List (ManagedTable R) → Bool
  is_selected p [] = false
  is_selected p (t ∷ ts) = beq p (path F t) || is_selected p ts

  abbrev pub widen : ManagedTable R → CompactionSelection R → CompactionSelection R
  widen t s = record s {
    smallest_key = min_key s.smallest_key (metadata F t).smallest_key;
    largest_key = max_key s.largest_key (metadata F t).largest_key;
  }

  unfoldable pub widen_all : List (ManagedTable R) → CompactionSelection R → CompactionSelection R
  widen_all [] s = s
  widen_all (t ∷ ts) s = widen_all ts (widen t s)

  unfoldable pub add_selected : ManagedTable R → CompactionSelection R → CompactionSelection R
  add_selected t s = widen t (record s { selected = s.selected ++ (t ∷ []) })

  -- Whether a round takes a table into the selection.
  unfoldable pub joins : ManagedTable R → CompactionSelection R → Bool
  unfolding is_selected
  joins t s =
      is_level1 t.level
      && (not (is_selected (path F t) s.selected)
          && ranges_overlap s.smallest_key s.largest_key (metadata F t).smallest_key
              (metadata F t).largest_key)

  -- One round over the readers; the second result is `expanded`.
  unfoldable pub expand_round :
      List (ManagedTable R) → CompactionSelection R → CompactionSelection R × Bool
  unfolding joins add_selected
  expand_round [] s = (s, false)
  expand_round (t ∷ ts) s = elim (joins t s) [
    | true ↦ let (s', _) = expand_round ts (add_selected t s) in (s', true)
    | false ↦ expand_round ts s
  ]

  abbrev pub after_round :
      (CompactionSelection R → CompactionSelection R)
      → CompactionSelection R × Bool
      → CompactionSelection R
  after_round again (s, true) = again s
  after_round again (s, false) = s

  unfoldable pub expand : ℕ → List (ManagedTable R) → CompactionSelection R → CompactionSelection R
  unfolding expand_round
  expand zero readers s = s
  expand (suc fuel) readers s = after_round (expand fuel readers) (expand_round readers s)

  abbrev pub level0_tables : List (ManagedTable R) → List (ManagedTable R)
  level0_tables readers = filter (λ t. not (is_level1 t.level)) readers

  -- The selection of the first tables, before it is expanded.
  unfoldable pub initial_selection : List (ManagedTable R) → CompactionSelection R
  unfolding widen_all
  initial_selection [] = no_selection
  initial_selection (t ∷ ts) = widen_all (t ∷ ts) (record {
    selected = t ∷ ts;
    unselected = [];
    smallest_key = (metadata F t).smallest_key;
    largest_key = (metadata F t).largest_key;
  })

  unfoldable pub with_unselected :
      List (ManagedTable R) → CompactionSelection R → CompactionSelection R
  with_unselected readers s = record s {
    unselected = filter (λ t. not (is_selected (path F t) s.selected)) readers;
  }

  unfoldable pub select_level0_compaction : Bool → SsTableManager R → CompactionSelection R
  unfolding expand initial_selection with_unselected is_older
  select_level0_compaction force_all m =
      let level0 = level0_tables m.readers in
      let selected_count =
        if force_all then length level0 else min (length level0) m.level0_compaction_max_tables in
      if length level0 == 0 || (not force_all && ltb (length level0) m.level0_compaction_trigger)
      then no_selection
      else with_unselected m.readers (
          expand (suc (length m.readers)) m.readers
            (initial_selection (take selected_count (sort is_older level0))))
