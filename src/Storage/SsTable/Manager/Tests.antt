-- ===== src/Storage/SsTable/Manager/Tests.antt =====
-- The properties of the manager at the example.
use nebula_kv.Prelude.{
  ℕ, ◌+◌, ◌-◌, ◌<◌, ◌≡◌, ◌≢◌, refl, Bytes, false, [], ◌∷◌, arith, ◌⊎◌, inl, inr, ap, sym, ◌∙◌,
}
use nebula_kv.Prelude.Result.{ok, throw, overflow_error}
use nebula_kv.Prelude.OrderedMap.{OrderedMap, find, IsSorted}
use nebula_kv.Storage.MemTable.{Entry, word}
use nebula_kv.Storage.SsTable.{SsTableLevel, level0}
use nebula_kv.Storage.SsTable.Manager.{path, table_path, reserve_file_id, merge_tables}
use nebula_kv.Storage.SsTable.Manager.Selected.{
  Split, others, Distinct, select_level0_compaction_closed, select_level0_compaction-Split,
}
use nebula_kv.Storage.SsTable.Manager.Selection.{select_level0_compaction, joins}
use nebula_kv.Storage.SsTable.Manager.FileIds.{table_path_inj, reserve_file_id-table_path}
use nebula_kv.Storage.SsTable.Manager.Merge.{Scans, IsNewest, merge_tables-IsNewest}
use nebula_kv.Storage.SsTable.Manager.Example.{File, files, key, value, tombstone, table, manager}

abbrev scans : Scans File
scans = (table tombstone, (key, tombstone) ∷ []) ∷ (table value, (key, value) ∷ []) ∷ []

merge_tables-IsNewest_example :
    (merged : OrderedMap Entry) × (merge_tables files (table tombstone ∷ table value ∷ []) []
      ≡ ok merged)
    × IsSorted merged
    × ((k : Bytes) → IsNewest k [] scans (find k merged))
merge_tables-IsNewest_example =
    merge_tables-IsNewest files scans (refl, (tt, tt), (refl, (tt, tt), tt))

select_level0_compaction_closed_example :
    let s = select_level0_compaction files false manager in
    (s.selected ≡ []) ⊎ (joins files (table value) s ≡ false)
select_level0_compaction_closed_example =
    select_level0_compaction_closed files false manager (table value) (inr (inl refl))

paths_differ : path files (table tombstone) ≢ path files (table value)
paths_differ e =
    let n : 2 ≡ 1 = table_path_inj level0 level0 2 0 2 1 0 1 (omega arith) (omega arith) e in
    absurd (omega (arith, n))

manager-Distinct : Distinct files manager.readers
manager-Distinct t u (inl p) (inl q) e = p ∙ sym q
manager-Distinct t u (inl p) (inr (inl q)) e =
    absurd (paths_differ (sym (ap (path files) p) ∙ e ∙ ap (path files) q))
manager-Distinct t u (inr (inl p)) (inl q) e =
    absurd (paths_differ (sym (ap (path files) q) ∙ sym e ∙ ap (path files) p))
manager-Distinct t u (inr (inl p)) (inr (inl q)) e = p ∙ sym q
manager-Distinct t u (inr (inr p)) m e = absurd p
manager-Distinct t u (inl p) (inr (inr q)) e = absurd q
manager-Distinct t u (inr (inl p)) (inr (inr q)) e = absurd q

select_level0_compaction-Split_example :
    let s = select_level0_compaction files false manager in
    (s.selected ≡ [])
    ⊎ (Split files manager.readers s.selected s.unselected
        × (s.unselected ≡ others files s.selected manager.readers))
select_level0_compaction-Split_example =
    select_level0_compaction-Split files false manager manager-Distinct

reserve_file_id-table_path_example :
    let (r, after) = reserve_file_id files manager in
    ((manager.next_file_id ≡ word - 1) × (r ≡ throw overflow_error) × (after ≡ manager))
    ⊎ ((id : ℕ) × (r ≡ ok id)
        × (after.next_file_id ≡ id + 1)
        × (after.next_file_id < word)
        × ((l l' : SsTableLevel) (g s id' g' s' : ℕ)
            → id' < id
            → table_path l id g s ≢ table_path l' id' g' s'))
reserve_file_id-table_path_example = reserve_file_id-table_path files manager (omega arith)
