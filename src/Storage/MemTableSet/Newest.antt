-- ===== src/Storage/MemTableSet/Newest.antt =====
-- The entry that `latest_entry` finds, against the entries of the key in all tables.
use nebula_kv.Prelude.{◌≤◌, ◌≡◌, Bytes, some, arith}
use nebula_kv.Prelude.Result.{ok}
use nebula_kv.Prelude.OrderedMap.{OrderedMap}
use nebula_kv.Storage.Validation.{IsKey, validate_key-IsKey}
use nebula_kv.Storage.MemTable.{Entry}
use nebula_kv.Storage.MemTableSet.{
  MemTableSet, latest_entry, latest_entry_without_validation, tables,
}
use nebula_kv.Storage.MemTableSet.Layers.{EachAtMost, look-EachAtMost, first_entry-eq-look}
use nebula_kv.Storage.MemTableSet.Refinement.{Represents}

-- In a set that stands for a map, the entry that latest_entry finds has the largest sequence
-- number of all the entries that the tables have for the key, and it is at most the last one given
-- out.
pub latest_entry-EachAtMost :
    (k : Bytes) (s : MemTableSet) (m : OrderedMap Bytes) (e : Entry)
    → IsKey k
    → Represents s m
    → latest_entry k s ≡ ok (some e)
    → (e.sequence_number ≤ s.last_sequence_number) × EachAtMost e.sequence_number k (tables s)
unfolding latest_entry latest_entry_without_validation
latest_entry-EachAtMost k s m e ik r h =
    look-EachAtMost s.last_sequence_number k (tables s) e (r.layered k)
      (ground (arith, validate_key-IsKey k ik, first_entry-eq-look k (tables s) ik))
