-- ===== src/Raft/StateMachine/Tests.antt =====
-- Runs of the state machine (src/raft/state_machine.cpp) over a store in memory.
use nebula_kv.Prelude.{◌≡◌, refl, Bytes, beq, blt, arith, true, false, some, List, [], ◌∷◌, ◌++◌}
use nebula_kv.Prelude.Result.{ok, throw, runtime_error, invalid_argument}
use nebula_kv.Prelude.OrderedMap.{OrderedMap, find, insert_or_assign, erase}
use nebula_kv.Storage.Validation.{IsKey, validate_key, validate_value}
use nebula_kv.Raft.Types.{noop, put, delete, LogEntry}
use nebula_kv.Raft.StateMachine.{
  DurableStore, Machine, encode_map, restore_map, create_snapshot, install_snapshot, recover, apply,
}
use nebula_kv.Raft.StateMachine.Snapshot.{restore_map-encode_map}
use nebula_kv.Raft.StateMachine.Applies.{interpret_all, Performs, perform_all, on_map}
use nebula_kv.Raft.StateMachine.Recovered.{recovery_calls, install_calls, recover-create_snapshot}

abbrev memory : DurableStore (OrderedMap Bytes)
memory = record {
  clear = λ d. (ok tt, []);
  open_store = λ d. (ok tt, d);
  put = λ k v d. (ok tt, insert_or_assign k v d);
  remove = λ k d. (ok true, erase k d);
  checkpoint = λ d. (ok tt, d);
  flush = λ d. (ok tt, d);
}

key_1 : IsKey (1 ∷ [])
key_1 = record { not_empty = λ e. cc; fits = omega arith }

key_2 : IsKey (2 ∷ [])
key_2 = record { not_empty = λ e. cc; fits = omega arith }

-- Two puts, and behind the snapshot an overwritten key and a removed one.
abbrev before : List LogEntry
before =
    record { index = 1; term = 1; command = record { type = put; key = 2 ∷ []; value = 7 ∷ [] } }
    ∷ record { index = 2; term = 1; command = record { type = put; key = 1 ∷ []; value = [] } }
    ∷ []

abbrev committed : List LogEntry
committed =
    record { index = 3; term = 1; command = record { type = put; key = 1 ∷ []; value = 9 ∷ [] } }
    ∷ record { index = 4; term = 2; command = record { type = delete; key = 2 ∷ []; value = [] } }
    ∷ record { index = 5; term = 2; command = record { type = noop; key = []; value = [] } }
    ∷ []

abbrev fresh : Machine (OrderedMap Bytes)
fresh = record { store = (5 ∷ [], []) ∷ []; is_open = false; values = [] }

restore_map-encode_map_example :
    (payload : Bytes) × (encode_map ((1 ∷ [], []) ∷ (2 ∷ [], 7 ∷ []) ∷ []) ≡ ok payload)
    × (restore_map payload [] ≡ (ok tt, (1 ∷ [], []) ∷ (2 ∷ [], 7 ∷ []) ∷ []))
unfolding blt
restore_map-encode_map_example =
    restore_map-encode_map ((1 ∷ [], []) ∷ (2 ∷ [], 7 ∷ []) ∷ [])
      (key_1, omega arith, (key_2, omega arith, tt)) ((refl, tt), (tt, tt)) (omega arith)

-- The log before the snapshot was applied.
abbrev created : Machine (OrderedMap Bytes)
created = record { store = []; is_open = true; values = (1 ∷ [], []) ∷ (2 ∷ [], 7 ∷ []) ∷ [] }

recover-create_snapshot_example :
    (payload : Bytes) × (create_snapshot memory created ≡ ok payload)
    × Performs memory
        (recover memory
          (some (record { last_included_index = 2; last_included_term = 1; payload = payload }))
          committed
          fresh)
        (perform_all memory (recovery_calls created.values committed) fresh.store)
        (interpret_all (before ++ committed) [])
    × ((old : OrderedMap Bytes)
        → on_map (recovery_calls created.values committed) old
          ≡ interpret_all (before ++ committed) [])
    × Performs memory
        (install_snapshot memory payload fresh)
        (perform_all memory (install_calls created.values) fresh.store)
        created.values
    × ((old : OrderedMap Bytes) → on_map (install_calls created.values) old ≡ created.values)
unfolding insert_or_assign beq blt
recover-create_snapshot_example =
    recover-create_snapshot memory before committed created 2 1 fresh refl
      ((key_2, omega arith), ((key_1, omega arith), tt)) ((key_1, omega arith), (key_2, (tt, tt)))
      (omega arith)

whole_log : interpret_all (before ++ committed) [] ≡ (1 ∷ [], 9 ∷ []) ∷ []
unfolding insert_or_assign erase beq blt
whole_log = refl

-- A second entry of one key is a duplicate, and leaves the first one.
abbrev twice : Bytes
twice =
    1 ∷ 0 ∷ 0 ∷ 0 ∷ 2 ∷ 0 ∷ 0 ∷ 0 ∷ 0 ∷ 0 ∷ 0 ∷ 0 ∷ 1 ∷ 0 ∷ 0 ∷ 0 ∷ 4 ∷ 0 ∷ 0 ∷ 0 ∷ 0 ∷ 1 ∷ 0 ∷ 0
    ∷ 0 ∷ 4 ∷ 0 ∷ 0 ∷ 0 ∷ 0 ∷ []

duplicate_key : restore_map twice [] ≡ (throw runtime_error, (4 ∷ [], []) ∷ [])
unfolding restore_map validate_key validate_value find insert_or_assign beq
duplicate_key = refl

-- An entry without an index is refused before the store is opened.
no_index :
    apply memory
      (record { index = 0; term = 1; command = record { type = noop; key = []; value = [] } })
      fresh
    ≡ (throw invalid_argument, fresh)
unfolding apply
no_index = refl
