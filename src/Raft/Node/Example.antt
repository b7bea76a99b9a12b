-- ===== src/Raft/Node/Example.antt =====
-- One node of a cluster of three, over a state machine that keeps a list of what was applied.
use nebula_kv.Prelude.{ℕ, none, List, [], ◌∷◌, ◌++◌}
use nebula_kv.Prelude.Result.{ok}
use nebula_kv.Raft.Types.{
  LogEntry, noop, follower, Peer, RaftNodeOptions, StateMachine, zero_metrics,
}
use nebula_kv.Raft.Node.State.{Node}

abbrev pub recorder : StateMachine (List LogEntry)
recorder = record {
  recover = λ snapshot entries m. (ok tt, entries);
  apply = λ e m. (ok tt, m ++ e ∷ []);
  create_snapshot = λ m. ok [];
  install_snapshot = λ payload m. (ok tt, []);
}

abbrev pub peer : ℕ → Peer
peer b = record { id = b ∷ []; address = b ∷ [] }

abbrev pub options : RaftNodeOptions
options = record {
  node_id = b'a' ∷ [];
  peers = peer b'b' ∷ peer b'c' ∷ [];
  max_append_entries = 128;
  snapshot_threshold_entries = 10_000;
}

abbrev pub entry : ℕ → ℕ → LogEntry
entry i t = record { index = i; term = t; command = record { type = noop; key = []; value = [] } }

-- Two entries of term 1, none of them committed.
abbrev pub node : Node (List LogEntry)
node = record {
  options = options;
  role = follower;
  hard_state = record { current_term = 1; voted_for = []; commit_index = 0; last_applied = 0 };
  log = entry 1 1 ∷ entry 2 1 ∷ [];
  snapshot = none;
  leader_id = [];
  next_index = [];
  match_index = [];
  metrics = zero_metrics;
  machine = [];
  disk = record {
    hard_state = record { current_term = 1; voted_for = []; commit_index = 0; last_applied = 0 };
    log = entry 1 1 ∷ entry 2 1 ∷ [];
    snapshot = none;
  };
}
