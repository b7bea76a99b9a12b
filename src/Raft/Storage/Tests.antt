-- ===== src/Raft/Storage/Tests.antt =====
-- Saves on the empty directory, and a file with the wrong checksum.
use nebula_kv.Prelude.{ℕ, ◌≡◌, ◌≢◌, ◌<◌, refl, Bytes, none, List, [], ◌∷◌, ◌⊎◌, arith}
use nebula_kv.Prelude.Result.{ok, throw, runtime_error}
use nebula_kv.Prelude.LittleEndian.{AreBytes}
use nebula_kv.Raft.Types.{LogEntry, PersistentState, HardState, noop}
use nebula_kv.Raft.Codec.RoundTrip.{IsEntry}
use nebula_kv.Raft.Storage.{
  Files, initial_hard_state, load, load_hard_state, load_log, load_snapshot, wrap_payload,
  unwrap_payload, has_jump,
}
use nebula_kv.Raft.Storage.RoundTrip.{magic}
use nebula_kv.Raft.Storage.History.{
  Save, hard_state, log, snapshot, save_all, AreSaves, note_all, save_all-load,
}
use nebula_kv.Raft.Storage.Refusals.{unwrap_payload-wrap_payload_only}

abbrev no_files : Files
no_files = record { hard_state = none; log = none; snapshot = none }

abbrev initial : PersistentState
initial = record { hard_state = initial_hard_state; log = []; snapshot = none }

abbrev voted : HardState
voted = record { current_term = 2; voted_for = b'a' ∷ []; commit_index = 1; last_applied = 1 }

abbrev entry : ℕ → LogEntry
entry i = record { index = i; term = 2; command = record { type = noop; key = []; value = [] } }

abbrev saves : List Save
saves =
    hard_state voted
    ∷ log (entry 4 ∷ entry 5 ∷ [])
    ∷ snapshot (record { last_included_index = 3; last_included_term = 1; payload = 7 ∷ [] })
    ∷ log (entry 4 ∷ [])
    ∷ []

entry-IsEntry : (i : ℕ) → i < 10 → IsEntry (entry i)
entry-IsEntry i h = record {
  index = omega (arith, h);
  term = omega arith;
  command = record { key = omega arith; value = omega arith };
}

saves-AreSaves : AreSaves saves
unfolding has_jump
saves-AreSaves = (
  record {
    current_term = omega arith;
    voted_for = omega arith;
    commit_index = omega arith;
    last_applied = omega arith;
  },
  (
    record {
      size = omega arith;
      entries = (entry-IsEntry 4 (omega arith), (entry-IsEntry 5 (omega arith), tt));
      contiguous = refl;
    },
    (
      (
        record {
          last_included_index = omega arith;
          last_included_term = omega arith;
          payload = omega arith;
        },
        refl,
      ),
      (
        record {
          size = omega arith;
          entries = (entry-IsEntry 4 (omega arith), tt);
          contiguous = refl;
        },
        tt,
      ),
    ),
  ),
)

no_files-load : load no_files ≡ ok initial
unfolding load load_hard_state load_log load_snapshot
no_files-load = refl

save_all-load_example :
    (files : Files) × (save_all saves no_files ≡ ok files)
    × (load files ≡ ok (note_all saves initial))
save_all-load_example = save_all-load saves no_files initial saves-AreSaves no_files-load

-- The payload is one byte, and the checksum is 0.
abbrev damaged : Bytes
damaged = b'N' ∷ b'B' ∷ b'H' ∷ b'R' ∷ 1 ∷ 0 ∷ 0 ∷ 0 ∷ 7 ∷ 0 ∷ 0 ∷ 0 ∷ 0 ∷ []

damaged-AreBytes : AreBytes damaged
damaged-AreBytes = (
  omega arith,
  (
    omega arith,
    (
      omega arith,
      (
        omega arith,
        (
          omega arith,
          (
            omega arith,
            (
              omega arith,
              (
                omega arith,
                (omega arith, (omega arith, (omega arith, (omega arith, (omega arith, tt))))),
              ),
            ),
          ),
        ),
      ),
    ),
  ),
)

unwrap_payload-wrap_payload_only_example :
    ((p : Bytes) × (unwrap_payload (magic b'N' b'B' b'H' b'R') damaged ≡ ok p)
      × (damaged ≡ wrap_payload (magic b'N' b'B' b'H' b'R') p))
    ⊎ ((unwrap_payload (magic b'N' b'B' b'H' b'R') damaged ≡ throw runtime_error)
        × ((p : Bytes) → damaged ≢ wrap_payload (magic b'N' b'B' b'H' b'R') p))
unwrap_payload-wrap_payload_only_example =
    unwrap_payload-wrap_payload_only b'N' b'B' b'H' b'R' damaged damaged-AreBytes
