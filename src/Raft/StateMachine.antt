-- ===== src/Raft/StateMachine.antt =====
-- src/raft/state_machine.cpp: the state machine over a durable store. The store is an interface: what
-- `DurableKeyValueStateMachine` calls of `PersistentKeyValueStore`, over the type of what the directory
-- holds while the store is closed or open.
pub mod Snapshot
pub mod Applies
pub mod Recovered
mod Tests
use nebula_kv.Prelude.{
  ℕ, zero, suc, ◌==◌, Bytes, Bool, true, false, not, ◌||◌, Option, none, some, List, [], ◌∷◌, ◌++◌,
  length, if◌then◌else◌,
}
use nebula_kv.Prelude.Result.{
  Result, ok, throw, throw_if, runtime_error, invalid_argument, ◌>>=◌, ◌>>◌,
}
use nebula_kv.Prelude.Exec.{Exec, resume}
use nebula_kv.Prelude.OrderedMap.{OrderedMap, find, insert_or_assign, erase}
use nebula_kv.Storage.Validation.{validate_key, validate_value}
use nebula_kv.Raft.Types.{Command, noop, put, delete, LogEntry, StateMachine}
use nebula_kv.Raft.Types
use nebula_kv.Raft.Codec.{
  Decoding, append_u32, append_u64, append_bytes, read_u32, read_u64, read_bytes,
}
use nebula_kv.Raft.Storage.{ensure_empty}

-- `clear` closes the store and removes the state directory, `open_store` constructs the store on it.
pub record DurableStore (D : Type 0) : Type 0 where
  pub clear : D → Result (Unit {0}) × D
  pub open_store : D → Result (Unit {0}) × D
  pub put : Bytes → Bytes → D → Result (Unit {0}) × D
  pub remove : Bytes → D → Result Bool × D
  pub checkpoint : D → Result (Unit {0}) × D
  pub flush : D → Result (Unit {0}) × D

-- `is_open` is whether there is an object `store_`.
pub record Machine (D : Type 0) : Type 0 where
  pub store : D
  pub is_open : Bool
  pub values : OrderedMap Bytes

abbrev pub snapshot_version : ℕ
snapshot_version = 1

unfoldable pub encode_values : OrderedMap Bytes → Result Bytes
unfolding append_bytes
encode_values [] = ok []
encode_values ((key, value) ∷ values) = do
  k ← append_bytes key
  v ← append_bytes value
  rest ← encode_values values
  ok (k ++ (v ++ rest))

unfoldable pub encode_map : OrderedMap Bytes → Result Bytes
unfolding encode_values
encode_map values = do
  bytes ← encode_values values
  ok (append_u32 snapshot_version ++ (append_u64 (length values) ++ bytes))

-- `emplace` on the map: a key that is there is a duplicate.
unfoldable pub emplace : Bytes → Bytes → Exec (OrderedMap Bytes) (Unit {0})
emplace key value values = elim (find key values) [
  | some _ ↦ (throw runtime_error, values)
  | none ↦ (ok tt, insert_or_assign key value values)
]

-- One key and one value of the input, which is what is returned behind them.
unfoldable pub read_value : Decoding (Bytes × Bytes)
unfolding read_bytes
read_value input = do
  (key, rest) ← read_bytes input
  (value, rest1) ← read_bytes rest
  validate_key key
  validate_value value
  ok ((key, value), rest1)

unfoldable pub restore_values : ℕ → Bytes → Exec (OrderedMap Bytes) Bytes
unfolding read_value emplace
restore_values zero input values = (ok input, values)
restore_values (suc count) input values =
    resume
      (λ e (values : OrderedMap Bytes).
        resume (λ _ (values : OrderedMap Bytes). restore_values count e.1 values)
          (emplace e.0.0 e.0.1 values))
      (read_value input, values)

unfoldable pub read_count : Decoding ℕ
unfolding read_u32 read_u64
read_count payload = do
  (version, rest) ← read_u32 payload
  throw_if (not (version == snapshot_version)) runtime_error
  read_u64 rest

-- An exception leaves the entries that were read before it.
unfoldable pub restore_map : Bytes → Exec (OrderedMap Bytes) (Unit {0})
unfolding read_count restore_values
restore_map payload values =
    resume
      (λ (count : ℕ × Bytes) (values : OrderedMap Bytes).
        resume (λ rest (values : OrderedMap Bytes). (ensure_empty rest, values))
          (restore_values count.0 count.1 values))
      (read_count payload, values)

module _ {D : Type 0} (S : DurableStore D) where
  -- A call of the open store.
  abbrev pub on_store {κ} : {A : Type κ} → Exec D A → Exec (Machine D) A
  on_store call m = let (r, d) = call m.store in (r, record m { store = d })

  unfoldable pub open_storage : Exec (Machine D) (Unit {0})
  open_storage m =
      resume (λ _ (m' : Machine D). (ok tt, record m' { is_open = true })) (on_store S.open_store m)

  unfoldable pub reset_storage : Exec (Machine D) (Unit {0})
  unfolding open_storage
  reset_storage m =
      resume (λ _ (m' : Machine D). open_storage m')
        (on_store S.clear (record m { is_open = false }))

  unfoldable pub put_all : OrderedMap Bytes → Exec (Machine D) (Unit {0})
  put_all [] m = (ok tt, m)
  put_all ((key, value) ∷ values) m =
      resume (λ _ (m' : Machine D). put_all values m') (on_store (S.put key value) m)

  unfoldable pub apply_command : Command → Exec (Machine D) (Unit {0})
  apply_command c m = elim c.type [
    | noop ↦ (ok tt, m)
    | put ↦
        resume
          (λ _ (m' : Machine D).
            resume
              (λ _ (m'' : Machine D).
                (ok tt, record m'' { values = insert_or_assign c.key c.value m''.values }))
              (on_store (S.put c.key c.value) m'))
          ((do validate_key c.key; validate_value c.value), m)
    | delete ↦
        resume
          (λ _ (m' : Machine D).
            resume (λ _ (m'' : Machine D). (ok tt, record m'' { values = erase c.key m''.values }))
              (on_store (S.remove c.key) m'))
          (validate_key c.key, m)
  ]

  unfoldable pub apply_commands : List LogEntry → Exec (Machine D) (Unit {0})
  unfolding apply_command
  apply_commands [] m = (ok tt, m)
  apply_commands (e ∷ es) m =
      resume (λ _ (m' : Machine D). apply_commands es m') (apply_command e.command m)

  unfoldable pub apply : LogEntry → Exec (Machine D) (Unit {0})
  unfolding apply_command open_storage
  apply e m =
      if e.index == 0 || e.term == 0
      then (throw invalid_argument, m)
      else resume (λ _ (m' : Machine D). apply_command e.command m')
          (if m.is_open then (ok tt, m) else open_storage m)

  -- The payload's entries, into the map and from there into the store.
  unfoldable pub load_payload : Bytes → Exec (Machine D) (Unit {0})
  unfolding restore_map put_all
  load_payload payload m =
      let (r, values) = restore_map payload m.values in
      resume (λ _ (m' : Machine D). put_all m'.values m') (r, record m { values = values })

  unfoldable pub install_snapshot : Bytes → Exec (Machine D) (Unit {0})
  unfolding reset_storage load_payload
  install_snapshot payload m =
      resume
        (λ _ (m1 : Machine D).
          resume (λ _ (m2 : Machine D). on_store S.checkpoint m2)
            (load_payload payload (record m1 { values = [] })))
        (reset_storage m)

  unfoldable pub load_snapshot : Option Types.Snapshot → Exec (Machine D) (Unit {0})
  unfolding load_payload
  load_snapshot none m = (ok tt, m)
  load_snapshot (some s) m = load_payload s.payload m

  unfoldable pub recover : Option Types.Snapshot → List LogEntry → Exec (Machine D) (Unit {0})
  unfolding reset_storage load_snapshot apply_commands
  recover snapshot committed m =
      resume
        (λ _ (m1 : Machine D).
          resume
            (λ _ (m2 : Machine D).
              resume (λ _ (m3 : Machine D). on_store S.checkpoint m3) (apply_commands committed m2))
            (load_snapshot snapshot (record m1 { values = [] })))
        (reset_storage m)

  unfoldable pub get : Bytes → Machine D → Result (Option Bytes)
  get key m = do validate_key key; ok (find key m.values)

  unfoldable pub create_snapshot : Machine D → Result Bytes
  unfolding encode_map
  create_snapshot m = encode_map m.values

  unfoldable pub flush : Exec (Machine D) (Unit {0})
  flush m = if m.is_open then on_store S.flush m else (ok tt, m)

  unfoldable pub size : Machine D → ℕ
  size m = length m.values

  -- The machine as the node has it.
  abbrev pub durable : StateMachine (Machine D)
  durable = record {
    recover = recover;
    apply = apply;
    create_snapshot = create_snapshot;
    install_snapshot = install_snapshot;
  }
