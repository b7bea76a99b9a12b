-- ===== src/Storage/SsTable/Manager/Compaction.antt =====
-- `SSTableManager::compact_level0` of src/sstable_manager.cpp. The selection, the reservation of a file id
-- and the publication are critical sections of their own; `others` and `others'` are what other threads do
-- to the manager before the second and before the third.
use nebula_kv.Prelude.{
  ℕ, ◌+◌, ◌%◌, Bytes, Bool, true, false, not, Option, none, some, List, [], ◌∷◌, ◌++◌, leb, length,
  if◌then◌else◌,
}
use nebula_kv.Prelude.Result.{Result, ok, throw_if, runtime_error, ◌>>=◌, ◌>>◌}
use nebula_kv.Prelude.Exec.{Exec, resume}
use nebula_kv.Prelude.OrderedMap.{OrderedMap}
use nebula_kv.Prelude.Members.{filter}
use nebula_kv.Storage.MemTable.{Entry, word}
use nebula_kv.Storage.SsTable.{level1, SsTableMetadata, SsTableWriterOptions, TableFiles}
use nebula_kv.Storage.SsTable.Manager.{
  ManagedTable, SsTableManager, CompactionStatistics, is_level1, table_path, max_sequence_of,
  metadata, path, is_outside, merge_tables, maximum_generation, is_nil, publish_tables,
  reserve_file_id,
}
use nebula_kv.Storage.SsTable.Manager.Selection.{
  CompactionSelection, is_selected, select_level0_compaction,
}

pub record CompactionResult : Type 0 where
  pub performed : Bool
  pub input_tables : ℕ
  pub output_tables : ℕ
  pub input_entries : ℕ
  pub output_entries : ℕ
  pub tombstones_dropped : ℕ
  pub output_file_id : ℕ

abbrev pub no_compaction : CompactionResult
no_compaction = record {
  performed = false;
  input_tables = 0;
  output_tables = 0;
  input_entries = 0;
  output_entries = 0;
  tombstones_dropped = 0;
  output_file_id = 0;
}

-- An entry that a tombstone would bring back, were the tombstone gone.
unfoldable pub shadowed_by : Entry → Option Entry → Bool
shadowed_by tombstone none = false
shadowed_by tombstone (some e) =
    if e.deleted then false else leb e.sequence_number tombstone.sequence_number

unfoldable pub add_statistics : CompactionResult → CompactionStatistics → CompactionStatistics
add_statistics r c = record {
  runs = (c.runs + 1) % word;
  input_tables = (c.input_tables + r.input_tables) % word;
  output_tables = (c.output_tables + r.output_tables) % word;
  input_entries = (c.input_entries + r.input_entries) % word;
  output_entries = (c.output_entries + r.output_entries) % word;
  tombstones_dropped = (c.tombstones_dropped + r.tombstones_dropped) % word;
}

module _ {R : Type 0} (F : TableFiles R) where
  unfoldable pub can_drop_tombstone : Bytes → Entry → List (ManagedTable R) → Result Bool
  can_drop_tombstone key tombstone [] = ok true
  can_drop_tombstone key tombstone (t ∷ ts) =
      let rest = can_drop_tombstone key tombstone ts in
      if is_outside F key t
      then rest
      else (do entry ← F.get key t.reader; if shadowed_by tombstone entry then ok false else rest)

  -- Whether an entry of the merged table goes.
  unfoldable pub is_dropped : Bytes → Entry → List (ManagedTable R) → Result Bool
  unfolding can_drop_tombstone
  is_dropped key entry unselected =
      if entry.deleted then can_drop_tombstone key entry unselected else ok false

  -- The loop over the merged entries: what is left, and how many tombstones went.
  unfoldable pub drop_tombstones :
      List (ManagedTable R) → OrderedMap Entry → Result (OrderedMap Entry × ℕ)
  unfolding is_dropped
  drop_tombstones unselected [] = ok ([], 0)
  drop_tombstones unselected ((key, entry) ∷ merged) = do
    dropped ← is_dropped key entry unselected
    (kept, count) ← drop_tombstones unselected merged
    ok (if dropped then (kept, (count + 1) % word) else ((key, entry) ∷ kept, count))

  unfoldable pub input_entries : List (ManagedTable R) → ℕ
  input_entries [] = 0
  input_entries (t ∷ ts) = ((metadata F t).entry_count + input_entries ts) % word

  -- Each selected table is still one of the readers.
  unfoldable pub check_active : List (ManagedTable R) → List (ManagedTable R) → Result (Unit {0})
  check_active readers [] = ok tt
  check_active readers (t ∷ ts) = do
    throw_if (not (is_selected F (path F t) readers)) runtime_error
    check_active readers ts

  unfoldable pub replacement :
      List (ManagedTable R) → List (ManagedTable R) → List (ManagedTable R) → List (ManagedTable R)
  replacement readers selected output =
      filter (λ t. not (is_selected F (path F t) selected)) readers ++ output

  unfoldable pub publish_compacted :
      CompactionSelection R
      → CompactionResult
      → List (ManagedTable R)
      → Exec (SsTableManager R) CompactionResult
  publish_compacted selection result output m =
      resume
        (λ (_ : Unit {0}) (m' : SsTableManager R).
          resume
            (λ (_ : Unit {0}) (m'' : SsTableManager R). (
              ok result,
              record m'' {
                compaction_statistics = add_statistics result m''.compaction_statistics;
              },
            ))
            (publish_tables F (replacement m'.readers selection.selected output) m'.live_key_count
              m'))
        (check_active m.readers selection.selected, m)

  unfoldable pub write_compacted :
      (SsTableManager R → SsTableManager R)
      → CompactionSelection R
      → CompactionResult
      → OrderedMap Entry
      → ℕ
      → Exec (SsTableManager R) CompactionResult
  unfolding publish_compacted
  write_compacted others' selection result compacted file_id m =
      let generation = maximum_generation F selection.selected in
      let options : SsTableWriterOptions = record {
        output_path = table_path level1 file_id generation (max_sequence_of compacted);
        target_data_block_bytes = m.target_data_block_bytes;
        generation = generation;
      } in
      resume
        (λ (written : SsTableMetadata × R) (m' : SsTableManager R).
          publish_compacted selection
            (record result { output_tables = 1; output_file_id = file_id })
            (record { reader = written.1; level = level1 } ∷ []) (others' m'))
        (F.write compacted options, m)

  -- Without an entry left there is no output table.
  unfoldable pub finish_compaction :
      (SsTableManager R → SsTableManager R)
      → (SsTableManager R → SsTableManager R)
      → CompactionSelection R
      → OrderedMap Entry × ℕ
      → Exec (SsTableManager R) CompactionResult
  unfolding write_compacted input_entries
  finish_compaction others others' selection (compacted, dropped) m =
      let result : CompactionResult = record {
        performed = true;
        input_tables = length selection.selected;
        output_tables = 0;
        input_entries = input_entries selection.selected;
        output_entries = length compacted;
        tombstones_dropped = dropped;
        output_file_id = 0;
      } in
      elim compacted [
        | [] ↦ publish_compacted selection result [] (others' m)
        | e ∷ es ↦
            resume (write_compacted others' selection result (e ∷ es))
              (reserve_file_id F (others m))
      ]

  unfoldable pub merged_entries : CompactionSelection R → Result (OrderedMap Entry × ℕ)
  unfolding drop_tombstones
  merged_entries selection = do
    merged ← merge_tables F selection.selected []
    drop_tombstones selection.unselected merged

  unfoldable pub compact_level0 :
      (SsTableManager R → SsTableManager R)
      → (SsTableManager R → SsTableManager R)
      → Bool
      → Exec (SsTableManager R) CompactionResult
  unfolding merged_entries finish_compaction
  compact_level0 others others' force_all m =
      let selection = select_level0_compaction F force_all m in
      if is_nil selection.selected
      then (ok no_compaction, m)
      else resume (finish_compaction others others' selection) (merged_entries selection, m)

  unfoldable pub needs_compaction : SsTableManager R → Bool
  needs_compaction m =
      leb m.level0_compaction_trigger (length (filter (λ t. not (is_level1 t.level)) m.readers))

  -- The test takes the lock by itself, and `between` is what other threads do behind it.
  unfoldable pub compact_if_needed :
      (SsTableManager R → SsTableManager R)
      → (SsTableManager R → SsTableManager R)
      → (SsTableManager R → SsTableManager R)
      → Exec (SsTableManager R) CompactionResult
  compact_if_needed between others others' m = elim (needs_compaction m) [
    | true ↦ compact_level0 others others' false (between m)
    | false ↦ (ok no_compaction, m)
  ]
