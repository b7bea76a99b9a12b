-- ===== src/Storage/MemTableSet.antt =====
-- src/memtable_set.cpp and include/nebulakv/memtable_set.hpp. One mutex orders the writes, so each
-- method is one step; a method that throws leaves the set as it was.
pub mod Layers
pub mod Refinement
pub mod Newest
pub mod History
mod Tests
use nebula_kv.Prelude.{
  ℕ, ◌+◌, ◌-◌, ◌%◌, ◌^◌, Bytes, Bool, true, false, Option, none, some, List, [], ◌∷◌, ltb, ◌==◌,
  length, if◌then◌else◌,
}
use nebula_kv.Prelude.Result.{
  Result, ok, throw, throw_if, overflow_error, invalid_argument, ◌>>=◌, ◌>>◌,
}
use nebula_kv.Storage.Validation.{validate_key, validate_value}
use nebula_kv.Storage.MemTable
use nebula_kv.Storage.MemTable.{
  MemTable, Entry, LookupState, tombstone, word, make_table, freeze, is_empty,
}

pub record MemTableOptions : Type 0 where
  pub max_memory_bytes : ℕ
  pub initial_sequence_number : ℕ
  pub initial_generation : ℕ

pub record MemTableSet : Type 0 where
  pub max_memory_bytes : ℕ
  pub active : MemTable
  pub immutable_tables : List MemTable
  pub next_generation : ℕ
  pub live_key_count : ℕ
  pub last_sequence_number : ℕ

unfoldable pub make_set : MemTableOptions → Result MemTableSet
make_set options = do
  throw_if (options.max_memory_bytes == 0) invalid_argument
  ok (record {
    max_memory_bytes = options.max_memory_bytes;
    active = make_table options.initial_generation;
    immutable_tables = [];
    next_generation = (options.initial_generation + 1) % word;
    live_key_count = 0;
    last_sequence_number = options.initial_sequence_number;
  })

-- The first table that has the key; the newest table stands first.
pub first_entry : Bytes → List MemTable → Result (Option Entry)
first_entry key [] = ok none
first_entry key (t ∷ ts) = do
  found ← MemTable.get_entry key t
  elim found [ some e ↦ ok (some e) | none ↦ first_entry key ts ]

pub first_state : Bytes → List MemTable → Result (Option LookupState)
first_state key [] = ok none
first_state key (t ∷ ts) = do
  found ← MemTable.lookup_state key t
  elim found [ some x ↦ ok (some x) | none ↦ first_state key ts ]

abbrev pub tables : MemTableSet → List MemTable
tables s = s.active ∷ s.immutable_tables

unfoldable pub latest_entry_without_validation : Bytes → MemTableSet → Result (Option Entry)
unfolding first_entry
latest_entry_without_validation key s = first_entry key (tables s)

unfoldable pub latest_state_without_validation : Bytes → MemTableSet → Result (Option LookupState)
unfolding first_state
latest_state_without_validation key s = first_state key (tables s)

unfoldable pub latest_entry : Bytes → MemTableSet → Result (Option Entry)
unfolding latest_entry_without_validation
latest_entry key s = do validate_key key; latest_entry_without_validation key s

-- `previous_state == MemTable::LookupState::Value`
abbrev pub is_value : Option LookupState → Bool
is_value none = false
is_value (some tombstone) = false
is_value (some LookupState.value) = true

unfoldable pub next_sequence_number : MemTableSet → Result ℕ
next_sequence_number s =
    if s.last_sequence_number == word - 1
    then throw overflow_error
    else ok (s.last_sequence_number + 1)

pub rotate : MemTableSet → MemTableSet
rotate s = record s {
  active = make_table s.next_generation;
  immutable_tables = freeze s.active ∷ s.immutable_tables;
  next_generation = (s.next_generation + 1) % word;
}

-- Under the write mutex the table just written is still the active one.
unfoldable pub rotate_if_required : MemTableSet → MemTableSet
unfolding rotate
rotate_if_required s =
    if ltb s.active.approximate_memory_usage s.max_memory_bytes
    then s
    else if is_empty s.active
    then s
    else rotate s

unfoldable pub rotate_active : MemTableSet → MemTableSet × Option MemTable
unfolding rotate
rotate_active s = if is_empty s.active then (s, none) else (rotate s, some (freeze s.active))

unfoldable pub put : Bytes → Bytes → MemTableSet → Result MemTableSet
put key text s = do
  validate_key key
  validate_value text
  previous ← latest_state_without_validation key s
  n ← next_sequence_number s
  table ← MemTable.put key text n s.active
  ok (
      rotate_if_required (record s {
        active = table;
        live_key_count =
            if is_value previous then s.live_key_count else (s.live_key_count + 1) % word;
        last_sequence_number = n;
      }))

-- What `remove` and `add_tombstone` do once they know whether the key is live.
pub bury : Bytes → Bool → MemTableSet → Result MemTableSet
bury key was_live s = do
  n ← next_sequence_number s
  table ← MemTable.add_tombstone key n s.active
  ok (
      rotate_if_required (record s {
        active = table;
        live_key_count =
            if was_live then (s.live_key_count + word - 1) % word else s.live_key_count;
        last_sequence_number = n;
      }))

unfoldable pub remove : Bytes → MemTableSet → Result (MemTableSet × Bool)
unfolding bury
remove key s = do
  validate_key key
  previous ← latest_state_without_validation key s
  if is_value previous then (do s' ← bury key true s; ok (s', true)) else ok (s, false)

unfoldable pub add_tombstone : Bytes → MemTableSet → Result MemTableSet
unfolding bury
add_tombstone key s = do
  validate_key key
  previous ← latest_state_without_validation key s
  bury key (is_value previous) s

abbrev pub live_value : Option Entry → Option Bytes
live_value none = none
live_value (some e) = if e.deleted then none else some e.value

unfoldable pub get : Bytes → MemTableSet → Result (Option Bytes)
get key s = do found ← latest_entry key s; ok (live_value found)

unfoldable pub exists : Bytes → MemTableSet → Result Bool
exists key s = do
  validate_key key
  state ← latest_state_without_validation key s
  ok (is_value state)

-- `std::find_if` and `erase`: the first table of the generation goes.
drop_generation : ℕ → List MemTable → List MemTable × Bool
drop_generation g [] = ([], false)
drop_generation g (t ∷ ts) =
    let (rest, found) = drop_generation g ts in
    if t.generation == g then (ts, true) else (t ∷ rest, found)

unfoldable pub discard_immutable : ℕ → MemTableSet → MemTableSet × Bool
unfolding drop_generation
discard_immutable g s =
    let (rest, found) = drop_generation g s.immutable_tables in
    (record s { immutable_tables = rest }, found)

unfoldable pub immutable_table_count : MemTableSet → ℕ
immutable_table_count s = length s.immutable_tables
