-- ===== src/Raft/Storage.antt =====
-- src/raft/storage.cpp: the three files of a node and their formats. A file is the bytes it has, where it
-- exists; a write of a file replaces it whole, through a temporary file and a rename, and like a read it
-- is taken to succeed. `reserve` of the log's count is left out: a count that is too large for it is also
-- larger than what is left to decode.
pub mod RoundTrip
pub mod History
pub mod Refusals
mod Tests
use nebula_kv.Prelude.{
  ℕ, zero, suc, ◌-◌, ◌==◌, Bytes, beq, Bool, false, not, ◌||◌, Option, none, some, List, [], ◌∷◌,
  ◌++◌, ltb, length, take, drop,
}
use nebula_kv.Prelude.Result.{
  Result, ok, throw, throw_if, runtime_error, invalid_argument, ◌>>=◌, ◌>>◌,
}
use nebula_kv.Storage.Checksum.{crc32}
use nebula_kv.Raft.Types.{HardState, LogEntry, Snapshot, PersistentState, next}
use nebula_kv.Raft.Codec.{
  Decoding, append_u32, append_u64, append_bytes, read_u32, read_u64, read_bytes, encode_entry,
  decode_entry,
}

-- The paths of the storage: what the file at each of them has.
pub record Files : Type 0 where
  pub hard_state : Option Bytes
  pub log : Option Bytes
  pub snapshot : Option Bytes

abbrev pub hard_magic : Bytes
hard_magic = b'N' ∷ b'B' ∷ b'H' ∷ b'R' ∷ []

abbrev pub log_magic : Bytes
log_magic = b'N' ∷ b'B' ∷ b'R' ∷ b'L' ∷ []

abbrev pub snapshot_magic : Bytes
snapshot_magic = b'N' ∷ b'B' ∷ b'R' ∷ b'S' ∷ []

abbrev pub version : ℕ
version = 1

unfoldable pub wrap_payload : Bytes → Bytes → Bytes
wrap_payload magic payload =
    magic ++ (append_u32 version ++ (payload ++ append_u32 (crc32 payload)))

unfoldable pub unwrap_payload : Bytes → Bytes → Result Bytes
unfolding read_u32
unwrap_payload expected_magic encoded = do
  throw_if (ltb (length encoded) 12) runtime_error
  throw_if (not (beq (take 4 encoded) expected_magic)) runtime_error
  (file_version, _) ← read_u32 (take 4 (drop 4 encoded))
  throw_if (not (file_version == version)) runtime_error
  let payload = take (length encoded - 12) (drop 8 encoded)
  (stored_checksum, _) ← read_u32 (drop (length encoded - 4) encoded)
  throw_if (not (stored_checksum == crc32 payload)) runtime_error
  ok payload

-- `if (!decoder.empty()) { throw ... }`
unfoldable pub ensure_empty : Bytes → Result (Unit {0})
ensure_empty [] = ok tt
ensure_empty (b ∷ bs) = throw runtime_error

unfoldable pub decode_hard_state : Bytes → Result HardState
unfolding read_u64 read_bytes
decode_hard_state payload = do
  (current_term, rest) ← read_u64 payload
  (voted_for, rest1) ← read_bytes rest
  (commit_index, rest2) ← read_u64 rest1
  (last_applied, rest3) ← read_u64 rest2
  ensure_empty rest3
  ok (record {
    current_term = current_term;
    voted_for = voted_for;
    commit_index = commit_index;
    last_applied = last_applied;
  })

unfoldable pub decode_entries : ℕ → Decoding (List LogEntry)
unfolding decode_entry
decode_entries zero input = ok ([], input)
decode_entries (suc count) input = do
  (e, rest) ← decode_entry input
  (es, rest1) ← decode_entries count rest
  ok (e ∷ es, rest1)

-- Whether an index is not the one after the index before it.
unfoldable pub has_jump : List LogEntry → Bool
has_jump [] = false
has_jump (e ∷ []) = false
has_jump (e ∷ f ∷ es) = not (f.index == next e.index) || has_jump (f ∷ es)

unfoldable pub decode_log : Bytes → Result (List LogEntry)
unfolding read_u64
decode_log payload = do
  (count, rest) ← read_u64 payload
  (entries, rest1) ← decode_entries count rest
  ensure_empty rest1
  throw_if (has_jump entries) runtime_error
  ok entries

unfoldable pub decode_snapshot : Bytes → Result Snapshot
unfolding read_u64 read_bytes
decode_snapshot payload = do
  (last_included_index, rest) ← read_u64 payload
  (last_included_term, rest1) ← read_u64 rest
  (bytes, rest2) ← read_bytes rest1
  ensure_empty rest2
  ok (record {
    last_included_index = last_included_index;
    last_included_term = last_included_term;
    payload = bytes;
  })

-- `HardState{}`
abbrev pub initial_hard_state : HardState
initial_hard_state = record { current_term = 0; voted_for = []; commit_index = 0; last_applied = 0 }

-- A file that does not exist leaves the part of the state as it starts.
unfoldable pub load_hard_state : Option Bytes → Result HardState
load_hard_state none = ok initial_hard_state
load_hard_state (some encoded) = do
  payload ← unwrap_payload hard_magic encoded
  decode_hard_state payload

unfoldable pub load_log : Option Bytes → Result (List LogEntry)
load_log none = ok []
load_log (some encoded) = do payload ← unwrap_payload log_magic encoded; decode_log payload

unfoldable pub load_snapshot : Option Bytes → Result (Option Snapshot)
load_snapshot none = ok none
load_snapshot (some encoded) = do
  payload ← unwrap_payload snapshot_magic encoded
  snapshot ← decode_snapshot payload
  ok (some snapshot)

unfoldable pub load : Files → Result PersistentState
load files = do
  hard_state ← load_hard_state files.hard_state
  log ← load_log files.log
  snapshot ← load_snapshot files.snapshot
  ok (record { hard_state = hard_state; log = log; snapshot = snapshot })

unfoldable pub save_hard_state : HardState → Files → Result Files
unfolding append_bytes
save_hard_state state files = do
  voted_for ← append_bytes state.voted_for
  let payload =
      append_u64 state.current_term
      ++ (voted_for ++ (append_u64 state.commit_index ++ append_u64 state.last_applied))
  ok (record files { hard_state = some (wrap_payload hard_magic payload) })

unfoldable pub encode_entries : List LogEntry → Result Bytes
unfolding encode_entry
encode_entries [] = ok []
encode_entries (e ∷ es) = do bytes ← encode_entry e; rest ← encode_entries es; ok (bytes ++ rest)

unfoldable pub replace_log : List LogEntry → Files → Result Files
replace_log entries files = do
  bytes ← encode_entries entries
  let payload = append_u64 (length entries) ++ bytes
  ok (record files { log = some (wrap_payload log_magic payload) })

unfoldable pub save_snapshot : Snapshot → Files → Result Files
unfolding append_bytes
save_snapshot snapshot files = do
  throw_if (snapshot.last_included_index == 0) invalid_argument
  bytes ← append_bytes snapshot.payload
  let payload =
      append_u64 snapshot.last_included_index ++ (append_u64 snapshot.last_included_term ++ bytes)
  ok (record files { snapshot = some (wrap_payload snapshot_magic payload) })
