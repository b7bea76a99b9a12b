-- ===== src/Raft/Types.antt =====
-- include/nebulakv/raft/types.hpp and the interface of include/nebulakv/raft/state_machine.hpp
use nebula_kv.Prelude.{ℕ, ◌+◌, ◌%◌, ◌^◌, Bytes, Bool, Option, List}
use nebula_kv.Prelude.Result.{Result}
use nebula_kv.Prelude.Exec.{Exec}

abbrev pub NodeId : Type 0
NodeId = Bytes

-- `std::uint64_t`
abbrev pub word : ℕ
word = 2 ^ 64

-- `n + 1U`
abbrev pub next : ℕ → ℕ
next n = (n + 1) % word

pub record Peer : Type 0 where
  pub id : NodeId
  pub address : Bytes

pub data Role : Type 0 where
  follower candidate leader : Role

pub data CommandType : Type 0 where
  noop put delete : CommandType

pub record Command : Type 0 where
  pub type : CommandType
  pub key : Bytes
  pub value : Bytes

pub record LogEntry : Type 0 where
  pub index : ℕ
  pub term : ℕ
  pub command : Command

pub record RequestVoteRequest : Type 0 where
  pub term : ℕ
  pub candidate_id : NodeId
  pub last_log_index : ℕ
  pub last_log_term : ℕ

pub record RequestVoteResponse : Type 0 where
  pub term : ℕ
  pub vote_granted : Bool

pub record AppendEntriesRequest : Type 0 where
  pub term : ℕ
  pub leader_id : NodeId
  pub previous_log_index : ℕ
  pub previous_log_term : ℕ
  pub entries : List LogEntry
  pub leader_commit : ℕ

pub record AppendEntriesResponse : Type 0 where
  pub term : ℕ
  pub success : Bool
  pub match_index : ℕ
  pub conflict_index : ℕ

pub record InstallSnapshotRequest : Type 0 where
  pub term : ℕ
  pub leader_id : NodeId
  pub last_included_index : ℕ
  pub last_included_term : ℕ
  pub payload : Bytes

pub record InstallSnapshotResponse : Type 0 where
  pub term : ℕ
  pub success : Bool
  pub installed_index : ℕ

pub record Snapshot : Type 0 where
  pub last_included_index : ℕ
  pub last_included_term : ℕ
  pub payload : Bytes

pub record HardState : Type 0 where
  pub current_term : ℕ
  pub voted_for : NodeId
  pub commit_index : ℕ
  pub last_applied : ℕ

pub record PersistentState : Type 0 where
  pub hard_state : HardState
  pub log : List LogEntry
  pub snapshot : Option Snapshot

pub record RaftMetrics : Type 0 where
  pub elections_started : ℕ
  pub leadership_changes : ℕ
  pub append_entries_sent : ℕ
  pub append_entries_received : ℕ
  pub vote_requests_sent : ℕ
  pub vote_requests_received : ℕ
  pub snapshots_created : ℕ
  pub snapshots_installed : ℕ
  pub replication_failures : ℕ
  pub committed_commands : ℕ

-- The options that the handlers read; the timeouts only steer the ticker thread.
pub record RaftNodeOptions : Type 0 where
  pub node_id : NodeId
  pub peers : List Peer
  pub max_append_entries : ℕ
  pub snapshot_threshold_entries : ℕ

-- The virtual methods of `StateMachine`, over the type of its state.
pub record StateMachine (S : Type 0) : Type 0 where
  pub recover : Option Snapshot → List LogEntry → Exec S (Unit {0})
  pub apply : LogEntry → Exec S (Unit {0})
  pub create_snapshot : S → Result Bytes
  pub install_snapshot : Bytes → Exec S (Unit {0})

abbrev pub zero_metrics : RaftMetrics
zero_metrics = record {
  elections_started = 0;
  leadership_changes = 0;
  append_entries_sent = 0;
  append_entries_received = 0;
  vote_requests_sent = 0;
  vote_requests_received = 0;
  snapshots_created = 0;
  snapshots_installed = 0;
  replication_failures = 0;
  committed_commands = 0;
}
