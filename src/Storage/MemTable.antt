-- ===== src/Storage/MemTable.antt =====
-- src/memtable.cpp, include/nebulakv/memtable.hpp and include/nebulakv/entry.hpp. The locks make
-- each method one step. A method that throws leaves the table as it was.
pub mod Accounting
pub mod Writes
use nebula_kv.Prelude.{
  ℕ, ◌+◌, ◌-◌, ◌*◌, ◌%◌, ◌^◌, Bytes, Bool, true, false, Option, none, some, List, [], ◌∷◌, leb,
  ◌==◌, length, if◌then◌else◌,
}
use nebula_kv.Prelude.Result.{Result, ok, throw_if, logic_error, invalid_argument, ◌>>=◌, ◌>>◌}
use nebula_kv.Prelude.OrderedMap.{OrderedMap, find, insert_or_assign}
use nebula_kv.Storage.Validation.{validate_key, validate_value}

pub record Entry : Type 0 where
  pub value : Bytes
  pub sequence_number : ℕ
  pub deleted : Bool

pub record MemTable : Type 0 where
  pub generation : ℕ
  pub entries : OrderedMap Entry
  pub approximate_memory_usage : ℕ
  pub immutable : Bool

pub data LookupState : Type 0 where
  value tombstone : LookupState

-- `std::size_t` is a 64-bit word.
abbrev pub word : ℕ
word = 2 ^ 64

-- `sizeof(Storage::value_type)` where `std::string` takes 32 bytes, and four pointers of 8 bytes.
abbrev value_type_size : ℕ
value_type_size = 80

abbrev tree_node_overhead : ℕ
tree_node_overhead = 8 * 4

unfoldable pub make_table : ℕ → MemTable
make_table generation = record {
  generation = generation;
  entries = [];
  approximate_memory_usage = 0;
  immutable = false;
}

unfoldable pub estimated_entry_size : Bytes → Entry → ℕ
estimated_entry_size key entry =
    (value_type_size + tree_node_overhead + length key + length entry.value) % word

ensure_mutable : MemTable → Result (Unit {0})
ensure_mutable t = throw_if t.immutable logic_error

add_usage : ℕ → ℕ → ℕ
add_usage usage size = (usage + size) % word

sub_usage : ℕ → ℕ → ℕ
sub_usage usage size = (usage + word - size) % word

-- The two ways to write: over an entry, whose sequence number must be older, and a new key.
unfoldable pub write_entry : Bytes → Entry → MemTable → Option Entry → Result MemTable
unfolding add_usage sub_usage
write_entry key entry t (some existing) = do
  throw_if (leb entry.sequence_number existing.sequence_number) invalid_argument
  ok (record t {
    entries = insert_or_assign key entry t.entries;
    approximate_memory_usage =
        add_usage (sub_usage t.approximate_memory_usage (estimated_entry_size key existing))
          (estimated_entry_size key entry);
  })
write_entry key entry t none = ok (record t {
  entries = insert_or_assign key entry t.entries;
  approximate_memory_usage = add_usage t.approximate_memory_usage (estimated_entry_size key entry);
})

unfoldable pub write : Bytes → Entry → MemTable → Result MemTable
unfolding ensure_mutable write_entry
write key entry t = do ensure_mutable t; write_entry key entry t (find key t.entries)

unfoldable pub put : Bytes → Bytes → ℕ → MemTable → Result MemTable
put key text sequence_number t = do
  validate_key key
  validate_value text
  throw_if (sequence_number == 0) invalid_argument
  write key (record { value = text; sequence_number = sequence_number; deleted = false }) t

unfoldable pub add_tombstone : Bytes → ℕ → MemTable → Result MemTable
add_tombstone key sequence_number t = do
  validate_key key
  throw_if (sequence_number == 0) invalid_argument
  write key (record { value = []; sequence_number = sequence_number; deleted = true }) t

unfoldable pub get_entry : Bytes → MemTable → Result (Option Entry)
get_entry key t = do validate_key key; ok (find key t.entries)

abbrev pub state_of : Option Entry → Option LookupState
state_of none = none
state_of (some e) = some (if e.deleted then tombstone else value)

unfoldable pub lookup_state : Bytes → MemTable → Result (Option LookupState)
lookup_state key t = do validate_key key; ok (state_of (find key t.entries))

unfoldable pub snapshot : MemTable → List (Bytes × Entry)
snapshot t = t.entries

unfoldable pub freeze : MemTable → MemTable
freeze t = record t { immutable = true }

unfoldable pub is_empty : MemTable → Bool
is_empty t = elim t.entries [ [] ↦ true | _ ↦ false ]

unfoldable pub entry_count : MemTable → ℕ
entry_count t = length t.entries
