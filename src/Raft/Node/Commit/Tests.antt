-- ===== src/Raft/Node/Commit/Tests.antt =====
-- The example node with both entries committed, and as a leader that has one of them at a follower.
use nebula_kv.Prelude.{◌≡◌, refl, none, List, [], ◌∷◌, arith, beq, blt}
use nebula_kv.Prelude.OrderedMap.{find}
use nebula_kv.Raft.Types.{LogEntry, leader}
use nebula_kv.Raft.Node.Example.{recorder, entry, node}
use nebula_kv.Raft.Node.Log.{last_log_index, term_at}
use nebula_kv.Raft.Node.Log.Contiguous.{IsContiguous}
use nebula_kv.Raft.Node.State.{Node, quorum_size}
use nebula_kv.Raft.Node.Commit.{
  apply_committed, maybe_create_snapshot, set_commit_index, advance_commit, commit_candidate,
  replicated, sort,
}
use nebula_kv.Raft.Node.Commit.Applied.{IsReady, replay, pending}
use nebula_kv.Raft.Node.Commit.Compaction.{Snapshots, maybe_create_snapshot-Snapshots}
use nebula_kv.Raft.Node.Commit.Committed.{AppliesAll, apply_committed-Applies}
use nebula_kv.Raft.Node.Commit.Quorum.{Commits, advance_commit-Commits}

abbrev behind : Node (List LogEntry)
behind = set_commit_index 2 node

behind-IsReady : IsReady behind
behind-IsReady = record {
  contiguous = record { follows = omega arith; fits = omega arith };
  above = omega arith;
  applied = omega arith;
  stored = omega arith;
}

apply_committed-Applies_example :
    let x = apply_committed recorder behind in
    AppliesAll recorder 2 x (replay recorder (pending behind) [])
    × IsContiguous x.1.snapshot x.1.log
    × (last_log_index x.1.snapshot x.1.log ≡ last_log_index none behind.log)
apply_committed-Applies_example = apply_committed-Applies recorder behind behind-IsReady

-- Both entries applied, and a snapshot due after every one.
abbrev ahead : Node (List LogEntry)
ahead = record behind {
  hard_state = record (behind.hard_state) { last_applied = 2 };
  machine = entry 1 1 ∷ entry 2 1 ∷ [];
  options = record (behind.options) { snapshot_threshold_entries = 1 };
}

ahead-IsReady : IsReady ahead
ahead-IsReady = record {
  contiguous = behind-IsReady.contiguous;
  above = omega arith;
  applied = omega arith;
  stored = omega arith;
}

maybe_create_snapshot-Snapshots_example :
    Snapshots recorder ahead (maybe_create_snapshot recorder ahead)
maybe_create_snapshot-Snapshots_example =
    maybe_create_snapshot-Snapshots recorder ahead ahead-IsReady

abbrev chief : Node (List LogEntry)
chief = record node { role = leader; match_index = (b'b' ∷ [], 1) ∷ (b'c' ∷ [], 0) ∷ [] }

advance_commit-Commits_example : Commits chief (advance_commit chief).1
unfolding advance_commit commit_candidate replicated sort find beq blt quorum_size last_log_index
    term_at
advance_commit-Commits_example = advance_commit-Commits chief refl
