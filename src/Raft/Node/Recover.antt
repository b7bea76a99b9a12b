-- ===== src/Raft/Node/Recover.antt =====
-- The constructor of `RaftNode` and `validate_options`, without the checks of the timeouts.
use nebula_kv.Prelude.{ℕ, Bool, false, ◌||◌, not, List, [], ◌∷◌, ltb, leb, ◌==◌, beq, if◌then◌else◌}
use nebula_kv.Prelude.Result.{Result, ok, throw, throw_if, invalid_argument, runtime_error, ◌>>◌}
use nebula_kv.Raft.Types.{
  NodeId, Peer, follower, LogEntry, HardState, PersistentState, RaftNodeOptions, StateMachine, next,
  zero_metrics,
}
use nebula_kv.Raft.Node.Log.{snapshot_index, last_log_index}
use nebula_kv.Raft.Node.State.{Node, persist_hard_state}
use nebula_kv.Raft.Node.Vote.{is_empty}

check_peers : NodeId → List Peer → Result (Unit {0})
check_peers id [] = ok tt
check_peers id (p ∷ ps) = do
  throw_if (is_empty p.id || is_empty p.address) invalid_argument
  throw_if (beq p.id id) invalid_argument
  check_peers id ps

among : NodeId → List Peer → Bool
among id [] = false
among id (p ∷ ps) = beq p.id id || among id ps

-- `std::sort` and `std::adjacent_find` on the ids: whether two of them are equal.
repeats : List Peer → Bool
unfolding among
repeats [] = false
repeats (p ∷ ps) = among p.id ps || repeats ps

unfoldable pub validate_options : RaftNodeOptions → Result (Unit {0})
unfolding check_peers repeats
validate_options o = do
  throw_if (is_empty o.node_id) invalid_argument
  throw_if (o.max_append_entries == 0) invalid_argument
  check_peers o.node_id o.peers
  throw_if (repeats o.peers) invalid_argument

has_gap : ℕ → List LogEntry → Bool
has_gap i [] = false
has_gap i (e ∷ es) = not (e.index == next i) || has_gap e.index es

committed_entries : ℕ → List LogEntry → List LogEntry
committed_entries commit [] = []
committed_entries commit (e ∷ es) =
    let rest = committed_entries commit es in if leb e.index commit then e ∷ rest else rest

abbrev raise_commit : ℕ → HardState → HardState
raise_commit i h = if ltb h.commit_index i then record h { commit_index = i } else h

module _ {S : Type 0} (M : StateMachine S) where
  abbrev recovered :
      RaftNodeOptions → PersistentState → HardState → Result (Unit {0}) × S → Result (Node S)
  recovered o p h (throw e, m) = throw e
  recovered o p h (ok _, m) = ok (
      persist_hard_state (record {
        options = o;
        role = follower;
        hard_state = record h { last_applied = h.commit_index };
        log = p.log;
        snapshot = p.snapshot;
        leader_id = [];
        next_index = [];
        match_index = [];
        metrics = zero_metrics;
        machine = m;
        disk = p;
      }))

  -- A node over what the storage loads; a constructor that throws leaves no node.
  unfoldable pub make_node : RaftNodeOptions → PersistentState → S → Result (Node S)
  unfolding validate_options has_gap committed_entries
  make_node o p m = do
    validate_options o
    throw_if (has_gap (snapshot_index p.snapshot) p.log) runtime_error
    let h : HardState = raise_commit (snapshot_index p.snapshot) p.hard_state
    throw_if (ltb (last_log_index p.snapshot p.log) h.commit_index) runtime_error
    recovered o p h (M.recover p.snapshot (committed_entries h.commit_index p.log) m)
