-- ===== src/Storage/MemTableSet/Tests.antt =====
-- A set of tables that rotates after every write, and the table in it.
use nebula_kv.Prelude.{◌≤◌, ◌≡◌, refl, subst, Bytes, true, false, List, [], ◌∷◌, arith, beq, blt}
use nebula_kv.Prelude.Result.{ok}
use nebula_kv.Prelude.OrderedMap.{find, insert_or_assign, erase}
use nebula_kv.Storage.Validation.{IsKey, validate_key, validate_value}
use nebula_kv.Storage.MemTable
use nebula_kv.Storage.MemTable.{MemTable, make_table, write, write_entry, estimated_entry_size}
use nebula_kv.Storage.MemTable.Accounting.{IsValid, put-IsValid, make_table-IsValid}
use nebula_kv.Storage.MemTableSet
use nebula_kv.Storage.MemTableSet.{
  MemTableSet, MemTableOptions, make_set, tables, latest_entry, latest_state_without_validation,
  next_sequence_number, rotate_if_required,
}
use nebula_kv.Storage.MemTableSet.Layers.{EachAtMost}
use nebula_kv.Storage.MemTableSet.Newest.{latest_entry-EachAtMost}
use nebula_kv.Storage.MemTableSet.Refinement.{
  Represents, put-Represents, remove-Represents, add_tombstone-Represents,
}
use nebula_kv.Storage.MemTableSet.History.{
  Call, put, remove, rotate, run, run_on_map, run-Represents, make_set-Represents,
}

abbrev options : MemTableOptions
options = record { max_memory_bytes = 100; initial_sequence_number = 0; initial_generation = 7 }

abbrev set0 : MemTableSet
set0 = record {
  max_memory_bytes = 100;
  active = record { generation = 7; entries = []; approximate_memory_usage = 0; immutable = false };
  immutable_tables = [];
  next_generation = 8;
  live_key_count = 0;
  last_sequence_number = 0;
}

set0-Represents : Represents set0 []
unfolding make_set make_table
set0-Represents = make_set-Represents options set0 refl

abbrev key : Bytes
key = b'k' ∷ []

key-IsKey : IsKey key
key-IsKey = record { not_empty = λ e. cc; fits = omega arith }

abbrev calls : List Call
calls = put key (1 ∷ []) ∷ rotate ∷ put key (2 ∷ []) ∷ remove key ∷ []

run-Represents_example :
    (s : MemTableSet) × (run calls set0 ≡ ok s) × Represents s (run_on_map calls [])
run-Represents_example =
    run-Represents calls set0 []
      ((key-IsKey, omega arith), (tt, ((key-IsKey, omega arith), (key-IsKey, tt)))) (omega arith)
      set0-Represents

put-Represents_example :
    (s : MemTableSet) × (MemTableSet.put key (1 ∷ []) set0 ≡ ok s)
    × Represents s (insert_or_assign key (1 ∷ []) [])
    × (s.last_sequence_number ≡ 1)
put-Represents_example =
    put-Represents key (1 ∷ []) set0 [] key-IsKey (omega arith) (omega arith) set0-Represents

remove-Represents_example :
    (s : MemTableSet) × (MemTableSet.remove key set0 ≡ ok (s, false))
    × Represents s (erase key [])
    × (s.last_sequence_number ≡ 0)
unfolding find
remove-Represents_example = remove-Represents key set0 [] key-IsKey (omega arith) set0-Represents

add_tombstone-Represents_example :
    (s : MemTableSet) × (MemTableSet.add_tombstone key set0 ≡ ok s)
    × Represents s (erase key [])
    × (s.last_sequence_number ≡ 1)
add_tombstone-Represents_example =
    add_tombstone-Represents key set0 [] key-IsKey (omega arith) set0-Represents

abbrev table1 : MemTable
table1 = record {
  generation = 7;
  entries = (key, record { value = 1 ∷ []; sequence_number = 1; deleted = false }) ∷ [];
  approximate_memory_usage = 114;
  immutable = false;
}

put-IsValid_example : IsValid table1
unfolding MemTable.put write write_entry make_table find insert_or_assign estimated_entry_size beq
    blt validate_key validate_value
put-IsValid_example = put-IsValid key (1 ∷ []) 1 (make_table 7) table1 (make_table-IsValid 7) refl

abbrev set1 : MemTableSet
set1 = record {
  max_memory_bytes = 100;
  active = record { generation = 8; entries = []; approximate_memory_usage = 0; immutable = false };
  immutable_tables = record table1 { immutable = true } ∷ [];
  next_generation = 9;
  live_key_count = 1;
  last_sequence_number = 1;
}

put-set1 : MemTableSet.put key (1 ∷ []) set0 ≡ ok set1
unfolding MemTableSet.put MemTable.put write write_entry make_table find insert_or_assign
    estimated_entry_size beq blt validate_key validate_value latest_state_without_validation
    MemTable.lookup_state next_sequence_number rotate_if_required MemTable.is_empty MemTable.freeze
put-set1 = refl

set1-Represents : Represents set1 (insert_or_assign key (1 ∷ []) [])
set1-Represents =
    let (s, p, r, l) =
      put-Represents key (1 ∷ []) set0 [] key-IsKey (omega arith) (omega arith) set0-Represents in
    subst (λ s. Represents s (insert_or_assign key (1 ∷ []) [])) (ground (arith, p, put-set1)) r

latest_entry-EachAtMost_example : (1 ≤ 1) × EachAtMost 1 key (tables set1)
unfolding latest_entry validate_key MemTable.get_entry find beq blt insert_or_assign
latest_entry-EachAtMost_example =
    latest_entry-EachAtMost key set1 (insert_or_assign key (1 ∷ []) [])
      (record { value = 1 ∷ []; sequence_number = 1; deleted = false }) key-IsKey set1-Represents
      refl
