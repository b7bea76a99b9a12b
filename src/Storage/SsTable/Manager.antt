-- ===== src/Storage/SsTable/Manager.antt =====
-- src/sstable_manager.cpp: the state of the manager, reading, and the publication of tables. Every
-- critical section is under the manager's mutex. The block cache changes no result and is left out here,
-- as is the removal of files that no manifest names.
pub mod Flush
pub mod Rounds
pub mod Selection
pub mod Compaction
pub mod Merge
pub mod Expansion
pub mod Selected
pub mod FileIds
mod Example
mod Tests
mod RoundsTests
use nebula_kv.Prelude.{
  ℕ, suc, ◌+◌, ◌-◌, ◌%◌, ◌==◌, Bytes, blt, Bool, true, false, not, ◌&&◌, ◌||◌, Option, none, some,
  List, [], ◌∷◌, ◌++◌, ltb, leb, max, if◌then◌else◌,
}
use nebula_kv.Prelude.Result.{Result, ok, throw, throw_if, logic_error, overflow_error, ◌>>=◌, ◌>>◌}
use nebula_kv.Prelude.Exec.{Exec, resume}
use nebula_kv.Prelude.OrderedMap.{OrderedMap, find, insert_or_assign}
use nebula_kv.Prelude.Decimal.{padded}
use nebula_kv.Prelude.Members.{filter, sort}
use nebula_kv.Storage.Validation.{validate_key}
use nebula_kv.Storage.MemTable.{Entry, word}
use nebula_kv.Storage.SsTable.{SsTableLevel, level0, level1, SsTableMetadata, TableFiles}
use nebula_kv.Storage.Manifest.Tables.{ManifestSnapshot}
use nebula_kv.Storage.Manifest.Manager.{ManifestManager, commit}

pub record ManagedTable (R : Type 0) : Type 0 where
  pub reader : R
  pub level : SsTableLevel

pub record CompactionStatistics : Type 0 where
  pub runs : ℕ
  pub input_tables : ℕ
  pub output_tables : ℕ
  pub input_entries : ℕ
  pub output_entries : ℕ
  pub tombstones_dropped : ℕ

pub record SsTableManager (R : Type 0) : Type 0 where
  pub target_data_block_bytes : ℕ
  pub level0_compaction_trigger : ℕ
  pub level0_compaction_max_tables : ℕ
  pub manifest : ManifestManager
  pub readers : List (ManagedTable R)
  pub live_key_count : ℕ
  pub max_sequence_number : ℕ
  pub next_generation : ℕ
  pub next_file_id : ℕ
  pub compaction_statistics : CompactionStatistics
  pub state_version : ℕ

-- `empty` of a vector.
unfoldable pub is_nil : {A : Type 0} → List A → Bool
is_nil [] = true
is_nil (x ∷ xs) = false

abbrev pub is_level1 : SsTableLevel → Bool
is_level1 level0 = false
is_level1 level1 = true

unfoldable pub ranges_overlap : Bytes → Bytes → Bytes → Bytes → Bool
ranges_overlap left_smallest left_largest right_smallest right_largest =
    not (blt right_largest left_smallest) && not (blt left_largest right_smallest)

-- "L0" and "L1"
abbrev pub level_name : SsTableLevel → Bytes
level_name level0 = b'L' ∷ b'0' ∷ []
level_name level1 = b'L' ∷ b'1' ∷ []

-- "sstable-<level>-f<file id>-g<generation>-s<max sequence>.sst"
unfoldable pub table_path : SsTableLevel → ℕ → ℕ → ℕ → Bytes
table_path level file_id generation max_sequence =
    (b's' ∷ b's' ∷ b't' ∷ b'a' ∷ b'b' ∷ b'l' ∷ b'e' ∷ b'-' ∷ [])
    ++ (level_name level
        ++ ((b'-' ∷ b'f' ∷ [])
            ++ (padded file_id
                ++ ((b'-' ∷ b'g' ∷ [])
                    ++ (padded generation
                        ++ ((b'-' ∷ b's' ∷ [])
                            ++ (padded max_sequence ++ (b'.' ∷ b's' ∷ b's' ∷ b't' ∷ []))))))))

unfoldable pub max_sequence_of : OrderedMap Entry → ℕ
max_sequence_of [] = 0
max_sequence_of ((k, e) ∷ es) = max e.sequence_number (max_sequence_of es)

-- An entry takes the place of an older one of its key only.
unfoldable pub keep_newer : Bytes → Entry → OrderedMap Entry → OrderedMap Entry
keep_newer key entry merged = elim (find key merged) [
  | none ↦ insert_or_assign key entry merged
  | some existing ↦
      if ltb existing.sequence_number entry.sequence_number
      then insert_or_assign key entry merged
      else merged
]

unfoldable pub merge_entries : OrderedMap Entry → OrderedMap Entry → OrderedMap Entry
unfolding keep_newer
merge_entries [] merged = merged
merge_entries ((k, e) ∷ es) merged = merge_entries es (keep_newer k e merged)

abbrev pub newer : Option Entry → Option Entry → Option Entry
newer none newest = newest
newer (some candidate) none = some candidate
newer (some candidate) (some newest) =
    if ltb newest.sequence_number candidate.sequence_number then some candidate else some newest

abbrev pub is_live : Option Entry → Bool
is_live none = false
is_live (some e) = not e.deleted

unfoldable pub count_live : OrderedMap Entry → ℕ
count_live [] = 0
count_live ((k, e) ∷ es) = let rest = count_live es in if e.deleted then rest else suc rest

module _ {R : Type 0} (F : TableFiles R) where
  abbrev pub metadata : ManagedTable R → SsTableMetadata
  metadata t = F.metadata t.reader

  abbrev pub path : ManagedTable R → Bytes
  path t = (F.metadata t.reader).path

  -- Whether a key lies outside the range of a table.
  unfoldable pub is_outside : Bytes → ManagedTable R → Bool
  is_outside key t = blt key (metadata t).smallest_key || blt (metadata t).largest_key key

  -- The comparison of `sort_tables`.
  unfoldable pub is_before : ManagedTable R → ManagedTable R → Bool
  is_before left right =
      let l = metadata left in
      let r = metadata right in
      if l.max_sequence_number == r.max_sequence_number
      then if l.generation == r.generation then blt r.path l.path else ltb r.generation l.generation
      else ltb r.max_sequence_number l.max_sequence_number

  unfoldable pub sort_tables : List (ManagedTable R) → List (ManagedTable R)
  sort_tables tables = sort is_before tables

  unfoldable pub check_adjacent : List (ManagedTable R) → Result (Unit {0})
  check_adjacent [] = ok tt
  check_adjacent (t ∷ []) = ok tt
  check_adjacent (t ∷ u ∷ ts) = do
    throw_if (not (blt (metadata t).largest_key (metadata u).smallest_key)) logic_error
    check_adjacent (u ∷ ts)

  unfoldable pub starts_before : ManagedTable R → ManagedTable R → Bool
  starts_before left right = blt (metadata left).smallest_key (metadata right).smallest_key

  abbrev pub level1_tables : List (ManagedTable R) → List (ManagedTable R)
  level1_tables tables = filter (λ t. is_level1 t.level) tables

  unfoldable pub validate_level1_ranges : List (ManagedTable R) → Result (Unit {0})
  validate_level1_ranges tables = check_adjacent (sort starts_before (level1_tables tables))

  unfoldable pub newest_from : Option Entry → List (ManagedTable R) → Bytes → Result (Option Entry)
  newest_from newest [] key = ok newest
  newest_from newest (t ∷ ts) key = elim (is_outside key t) [
    | true ↦ newest_from newest ts key
    | false ↦ do candidate ← F.get key t.reader; newest_from (newer candidate newest) ts key
  ]

  unfoldable pub newest_entry_from_tables : List (ManagedTable R) → Bytes → Result (Option Entry)
  unfolding newest_from
  newest_entry_from_tables tables key = newest_from none tables key

  unfoldable pub merge_tables : List (ManagedTable R) → OrderedMap Entry → Result (OrderedMap Entry)
  unfolding merge_entries
  merge_tables [] merged = ok merged
  merge_tables (t ∷ ts) merged = do
    entries ← F.read_all t.reader
    merge_tables ts (merge_entries entries merged)

  unfoldable pub compute_live_key_count : List (ManagedTable R) → Result ℕ
  unfolding merge_tables count_live
  compute_live_key_count tables = do latest ← merge_tables tables []; ok (count_live latest % word)

  unfoldable pub metadata_for : List (ManagedTable R) → List SsTableMetadata
  metadata_for [] = []
  metadata_for (t ∷ ts) = record (metadata t) { level = t.level } ∷ metadata_for ts

  unfoldable pub max_sequence : List (ManagedTable R) → ℕ
  max_sequence [] = 0
  max_sequence (t ∷ ts) = max (metadata t).max_sequence_number (max_sequence ts)

  unfoldable pub maximum_generation : List (ManagedTable R) → ℕ
  maximum_generation [] = 0
  maximum_generation (t ∷ ts) = max (metadata t).generation (maximum_generation ts)

  -- The next generation of a store with these tables.
  unfoldable pub new_next_generation : List (ManagedTable R) → Result ℕ
  unfolding maximum_generation
  new_next_generation [] = ok 0
  new_next_generation (t ∷ ts) =
      let maximum = maximum_generation (t ∷ ts) in
      if maximum == word - 1 then throw overflow_error else ok (maximum + 1)

  unfoldable pub publish_tables : List (ManagedTable R) → ℕ → Exec (SsTableManager R) (Unit {0})
  publish_tables unsorted live_key_count m =
      let tables = sort_tables unsorted in
      let committed = commit (metadata_for tables) m.next_file_id m.manifest in
      resume
        (λ (next_generation : ℕ) (_ : SsTableManager R).
          resume
            (λ (_ : ManifestSnapshot) (m' : SsTableManager R). (
              ok tt,
              record m' {
                readers = tables;
                live_key_count = live_key_count;
                max_sequence_number = max_sequence tables;
                next_generation = next_generation;
                state_version = (m'.state_version + 1) % word;
              },
            ))
            (committed.0, record m { manifest = committed.1 }))
        ((do validate_level1_ranges tables; new_next_generation tables), m)

  unfoldable pub reserve_file_id : Exec (SsTableManager R) ℕ
  reserve_file_id m =
      if m.next_file_id == word - 1
      then (throw overflow_error, m)
      else (ok m.next_file_id, record m { next_file_id = m.next_file_id + 1 })

  unfoldable pub get : Bytes → SsTableManager R → Result (Option Entry)
  unfolding newest_entry_from_tables
  get key m = do validate_key key; newest_entry_from_tables m.readers key
