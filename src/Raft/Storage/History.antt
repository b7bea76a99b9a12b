-- ===== src/Raft/Storage/History.antt =====
-- What the storage (src/raft/storage.cpp) loads after any saves of parts of a node's state.
use nebula_kv.Prelude.{◌≡◌, refl, ◌==◌, arith, false, some, List, [], ◌∷◌, ◌++◌, length}
use nebula_kv.Prelude.Result.{Result, ok, ◌>>=◌, bind_returns}
use nebula_kv.Raft.Types.{HardState, LogEntry, Snapshot, PersistentState}
use nebula_kv.Raft.Codec.{append_u64}
use nebula_kv.Raft.Codec.RoundTrip.{append_bytes_ok}
use nebula_kv.Raft.Storage.{
  Files, wrap_payload, hard_magic, log_magic, snapshot_magic, load_hard_state, load_log,
  load_snapshot, load, save_hard_state, replace_log, save_snapshot,
}
use nebula_kv.Raft.Storage.RoundTrip.{
  IsHardState, IsLog, IsSnapshot, unwrap_payload-wrap_payload, decode_hard_state-hard_payload,
  decode_snapshot-snapshot_payload, decode_log-encode_entries, hard_payload, snapshot_payload,
}

-- A call of the storage.
pub data Save : Type 0 where
  hard_state : HardState → Save
  log : List LogEntry → Save
  snapshot : Snapshot → Save

unfoldable pub save : Save → Files → Result Files
save (hard_state h) = save_hard_state h
save (log es) = replace_log es
save (snapshot s) = save_snapshot s

unfoldable pub save_all : List Save → Files → Result Files
save_all [] files = ok files
save_all (s ∷ ss) files = save s files >>= save_all ss

abbrev pub IsSave : Save → Type 0
IsSave (hard_state h) = IsHardState h
IsSave (log es) = IsLog es
IsSave (snapshot s) = IsSnapshot s × ((s.last_included_index == 0) ≡ false)

abbrev pub AreSaves : List Save → Type 0
AreSaves [] = Unit
AreSaves (s ∷ ss) = IsSave s × AreSaves ss

-- The state with one part replaced.
abbrev pub note : Save → PersistentState → PersistentState
note (hard_state h) p = record p { hard_state = h }
note (log es) p = record p { log = es }
note (snapshot s) p = record p { snapshot = some s }

abbrev pub note_all : List Save → PersistentState → PersistentState
note_all [] p = p
note_all (s ∷ ss) p = note_all ss (note s p)

record Holds (files : Files) (p : PersistentState) : Type 0 where
  hard_state : load_hard_state files.hard_state ≡ ok p.hard_state
  log : load_log files.log ≡ ok p.log
  snapshot : load_snapshot files.snapshot ≡ ok p.snapshot

load-Holds : (files : Files) (p : PersistentState) → load files ≡ ok p → Holds files p
unfolding load
load-Holds files p h =
    let (hs, e, r) = bind_returns (load_hard_state files.hard_state) _ p h in
    let (es, e1, r1) = bind_returns (load_log files.log) _ p r in
    let (sn, e2, r2) = bind_returns (load_snapshot files.snapshot) _ p r1 in
    record {
      hard_state = ground (arith, e, r2);
      log = ground (arith, e1, r2);
      snapshot = ground (arith, e2, r2);
    }

Holds-load : (files : Files) (p : PersistentState) → Holds files p → load files ≡ ok p
unfolding load
Holds-load files p h = rw (h.hard_state, h.log, h.snapshot) refl

save-Holds :
    (s : Save) (files : Files) (p : PersistentState)
    → IsSave s
    → Holds files p
    → (files' : Files) × (save s files ≡ ok files') × Holds files' (note s p)
unfolding save save_hard_state replace_log save_snapshot load_hard_state load_log load_snapshot
save-Holds (hard_state h) files p v k = (
  record files { hard_state = some (wrap_payload hard_magic (hard_payload h)) },
  rw (append_bytes_ok h.voted_for v.voted_for) refl,
  record {
    hard_state =
        rw (unwrap_payload-wrap_payload b'N' b'B' b'H' b'R' (hard_payload h))
          (decode_hard_state-hard_payload h v);
    log = k.log;
    snapshot = k.snapshot;
  },
)
save-Holds (log es) files p v k =
    let (bytes, e, d) = decode_log-encode_entries es v in
    (
      record files { log = some (wrap_payload log_magic (append_u64 (length es) ++ bytes)) },
      rw e refl,
      record {
        hard_state = k.hard_state;
        log =
            rw (unwrap_payload-wrap_payload b'N' b'B' b'R' b'L' (append_u64 (length es) ++ bytes))
              d;
        snapshot = k.snapshot;
      },
    )
save-Holds (snapshot s) files p v k = (
  record files { snapshot = some (wrap_payload snapshot_magic (snapshot_payload s)) },
  rw (v.1, append_bytes_ok s.payload v.0.payload) refl,
  record {
    hard_state = k.hard_state;
    log = k.log;
    snapshot =
        rw
          (
            unwrap_payload-wrap_payload b'N' b'B' b'R' b'S' (snapshot_payload s),
            decode_snapshot-snapshot_payload s v.0,
          )
          refl;
  },
)

-- From files that load as a state, any sequence of saves of hard states, logs and snapshots
-- succeeds, and the files then load as the state with each saved part replaced in turn, provided
-- numbers are 64-bit words, byte strings and keys and values are shorter than 2^32, a log has no
-- gaps, and a snapshot's index is not 0.
pub save_all-load :
    (ss : List Save) (files : Files) (p : PersistentState)
    → AreSaves ss
    → load files ≡ ok p
    → (files' : Files) × (save_all ss files ≡ ok files') × (load files' ≡ ok (note_all ss p))
unfolding save_all
save_all-load [] files p v h = (files, refl, h)
save_all-load (s ∷ ss) files p v h =
    let (files1, e, k) = save-Holds s files p v.0 (load-Holds files p h) in
    let (files2, e2, k2) =
      save_all-load ss files1 (note s p) v.1 (Holds-load files1 (note s p) k) in
    (files2, rw e e2, k2)
