-- ===== src/Storage/SsTable/Manager/Flush.antt =====
-- `SSTableManager::flush` of src/sstable_manager.cpp. Other threads may change the manager between any two
-- critical sections; what they do there is a function of the manager.
use nebula_kv.Prelude.{
  ℕ, ◌+◌, ◌-◌, ◌%◌, Bool, true, false, not, Option, none, some, [], ◌∷◌, ◌++◌, List, leb,
  if◌then◌else◌, ◌==◌,
}
use nebula_kv.Prelude.Result.{Result, ok, throw, invalid_argument, ◌>>=◌}
use nebula_kv.Prelude.Exec.{Exec, resume}
use nebula_kv.Prelude.OrderedMap.{OrderedMap}
use nebula_kv.Storage.MemTable.{MemTable, Entry, word, snapshot}
use nebula_kv.Storage.SsTable.{level0, SsTableMetadata, SsTableWriterOptions, TableFiles}
use nebula_kv.Storage.SsTable.Manager.{
  ManagedTable, SsTableManager, is_nil, table_path, max_sequence_of, is_live,
  newest_entry_from_tables, publish_tables, reserve_file_id,
}

-- `previous && previous->sequence_number >= entry.sequence_number`
abbrev pub is_superseded : Option Entry → Entry → Bool
is_superseded none entry = false
is_superseded (some previous) entry = leb entry.sequence_number previous.sequence_number

abbrev pub count_change : Bool → Bool → ℕ → ℕ
count_change false true count = (count + 1) % word
count_change true false count = (count + word - 1) % word
count_change _ _ count = count

module _ {R : Type 0} (F : TableFiles R) where
  unfoldable pub live_count_after_flush : List (ManagedTable R) → OrderedMap Entry → ℕ → Result ℕ
  live_count_after_flush current [] live_count = ok live_count
  live_count_after_flush current ((key, entry) ∷ incoming) live_count = do
    previous ← newest_entry_from_tables F current key
    live_count_after_flush current incoming (
        if is_superseded previous entry
        then live_count
        else count_change (is_live previous) (not entry.deleted) live_count)

  -- What a round of the loop reads under the lock.
  pub record StateSnapshot : Type 0 where
    pub readers : List (ManagedTable R)
    pub live_key_count : ℕ
    pub version : ℕ

  abbrev pub observe : SsTableManager R → StateSnapshot
  observe m = record {
    readers = m.readers;
    live_key_count = m.live_key_count;
    version = m.state_version;
  }

  -- The critical section at the end of a round: whether the round published. A changed version makes the
  -- loop continue.
  unfoldable pub try_publish : ManagedTable R → StateSnapshot → ℕ → Exec (SsTableManager R) Bool
  try_publish table state new_live_count m =
      if m.state_version == state.version
      then resume (λ (_ : Unit {0}) (m' : SsTableManager R). (ok true, m'))
          (publish_tables F (state.readers ++ (table ∷ [])) new_live_count m)
      else (ok false, m)

  -- A round that read `state`, with the manager that it finds behind the second lock.
  unfoldable pub publish_round :
      OrderedMap Entry → ManagedTable R → StateSnapshot → Exec (SsTableManager R) Bool
  unfolding try_publish
  publish_round entries table state m =
      resume (try_publish table state)
        (live_count_after_flush state.readers entries state.live_key_count, m)

  -- The loop. Each function of the list is what other threads do to the manager within one round; behind
  -- the last of them a round is undisturbed.
  unfoldable pub publish_rounds :
      OrderedMap Entry
      → ManagedTable R
      → List (SsTableManager R → SsTableManager R)
      → Exec (SsTableManager R) Bool
  unfolding publish_round
  publish_rounds entries table [] m = publish_round entries table (observe m) m
  publish_rounds entries table (other ∷ others) m =
      resume
        (λ (published : Bool) (m' : SsTableManager R). elim published [
          | true ↦ (ok true, m')
          | false ↦ publish_rounds entries table others m'
        ])
        (publish_round entries table (observe m) (other m))

  -- The file is written, and its reader opened, without a lock.
  unfoldable pub write_flushed :
      List (SsTableManager R → SsTableManager R)
      → MemTable
      → ℕ
      → Exec (SsTableManager R) SsTableMetadata
  unfolding publish_rounds
  write_flushed others table file_id m =
      let entries = snapshot table in
      let options : SsTableWriterOptions = record {
        output_path = table_path level0 file_id table.generation (max_sequence_of entries);
        target_data_block_bytes = m.target_data_block_bytes;
        generation = table.generation;
      } in
      resume
        (λ (w : SsTableMetadata × R) (m1 : SsTableManager R).
          resume (λ (_ : Bool) (m2 : SsTableManager R). (ok (record (w.0) { level = level0 }), m2))
            (publish_rounds entries (record { reader = w.1; level = level0 }) others m1))
        (F.write entries options, m)

  -- `before` is what other threads do between the reservation of the file id and the first round.
  unfoldable pub flush :
      (SsTableManager R → SsTableManager R)
      → List (SsTableManager R → SsTableManager R)
      → MemTable
      → Exec (SsTableManager R) SsTableMetadata
  flush before others table m =
      if not table.immutable
      then (throw invalid_argument, m)
      else if is_nil (snapshot table)
      then (throw invalid_argument, m)
      else resume
          (λ (file_id : ℕ) (m' : SsTableManager R). write_flushed others table file_id (before m'))
          (reserve_file_id F m)
