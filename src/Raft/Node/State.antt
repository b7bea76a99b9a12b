-- ===== src/Raft/Node/State.antt =====
-- The fields of `RaftNode` and its changes that cannot throw. The mutex makes each handler one step.
-- `disk` is what `RaftStorage` would load; writing it is taken to succeed. The election and heartbeat
-- deadlines, the threads and the condition variable are left out: they decide only when the ticker
-- calls an operation, and here any operation may be called at any time.
use nebula_kv.Prelude.{ℕ, ◌+◌, ◌/◌, [], List, ◌∷◌, ltb, length, if◌then◌else◌, Option}
use nebula_kv.Prelude.OrderedMap.{OrderedMap, insert_or_assign}
use nebula_kv.Raft.Types.{
  NodeId, Peer, Role, follower, leader, LogEntry, Snapshot, HardState, PersistentState, RaftMetrics,
  RaftNodeOptions, next,
}
use nebula_kv.Raft.Node.Log

pub record Node (S : Type 0) : Type 0 where
  pub options : RaftNodeOptions
  pub role : Role
  pub hard_state : HardState
  pub log : List LogEntry
  pub snapshot : Option Snapshot
  pub leader_id : NodeId
  pub next_index : OrderedMap ℕ
  pub match_index : OrderedMap ℕ
  pub metrics : RaftMetrics
  pub machine : S
  pub disk : PersistentState

-- A term that is newer clears the vote.
abbrev pub enter_term : ℕ → HardState → HardState
enter_term term h =
    if ltb h.current_term term then record h { current_term = term; voted_for = [] } else h

-- `emplace` for every peer; the values are equal, so the order of the peers does not matter.
abbrev pub for_peers : ℕ → List Peer → OrderedMap ℕ
for_peers v [] = []
for_peers v (p ∷ ps) = insert_or_assign p.id v (for_peers v ps)

module _ {S : Type 0} where
  abbrev pub current_term : Node S → ℕ
  current_term n = n.hard_state.current_term

  abbrev pub voted_for : Node S → NodeId
  voted_for n = n.hard_state.voted_for

  abbrev pub commit_index : Node S → ℕ
  commit_index n = n.hard_state.commit_index

  abbrev pub last_log_index : Node S → ℕ
  last_log_index n = Log.last_log_index n.snapshot n.log

  abbrev pub last_log_term : Node S → ℕ
  last_log_term n = Log.last_log_term n.snapshot n.log

  abbrev pub term_at : Node S → ℕ → Option ℕ
  term_at n = Log.term_at n.snapshot n.log

  abbrev pub persist_hard_state : Node S → Node S
  persist_hard_state n = record n { disk = record (n.disk) { hard_state = n.hard_state } }

  abbrev pub persist_log : Node S → Node S
  persist_log n = record n { disk = record (n.disk) { log = n.log } }

  unfoldable pub become_follower : ℕ → NodeId → Node S → Node S
  become_follower term leader_id n =
      if ltb term n.hard_state.current_term
      then n
      else persist_hard_state (record n {
        hard_state = enter_term term n.hard_state;
        role = follower;
        leader_id = leader_id;
        next_index = [];
        match_index = [];
      })

  unfoldable pub quorum_size : Node S → ℕ
  quorum_size n = (length n.options.peers + 1) / 2 + 1

  unfoldable pub become_leader : Node S → Node S
  become_leader n = record n {
    role = leader;
    leader_id = n.options.node_id;
    metrics = record (n.metrics) { leadership_changes = next n.metrics.leadership_changes };
    next_index = for_peers (next (last_log_index n)) n.options.peers;
    match_index = for_peers 0 n.options.peers;
  }
