-- ===== src/Raft/Node/Run.antt =====
-- What can happen to a node: each handler, and each stretch that the node's own threads run under
-- the mutex. Any interleaving of the threads and of the peers' requests is a sequence of such steps.
use nebula_kv.Prelude.{ℕ, ◌+◌, ◌<◌, Bool, Option, List, [], ◌∷◌}
use nebula_kv.Raft.Types.{
  Peer, Command, RequestVoteRequest, RequestVoteResponse, AppendEntriesRequest,
  AppendEntriesResponse, InstallSnapshotRequest, InstallSnapshotResponse, StateMachine, word,
}
use nebula_kv.Raft.Node.State.{Node, current_term}
use nebula_kv.Raft.Node.Vote.{handle_request_vote}
use nebula_kv.Raft.Node.Append.{handle_append_entries}
use nebula_kv.Raft.Node.Install.{handle_install_snapshot}
use nebula_kv.Raft.Node.Election.{
  start_election, count_vote_sent, on_vote_response, finish_election,
}
use nebula_kv.Raft.Node.Replicate.{prepare, on_install_response, on_append_response, finish_round}
use nebula_kv.Raft.Node.Submit.{submit, trigger_snapshot}

pub data Event : Type 0 where
  vote_requested : RequestVoteRequest → Event
  entries_received : AppendEntriesRequest → Event
  snapshot_received : InstallSnapshotRequest → Event
  election_started : Event
  vote_sent : Event
  vote_answered : ℕ → ℕ → Option RequestVoteResponse → Event
  election_finished : ℕ → ℕ → Event
  attempt_prepared : Peer → Bool → Event
  install_answered : Peer → ℕ → Option InstallSnapshotResponse → Event
  append_answered : Peer → ℕ → Option AppendEntriesResponse → Event
  round_finished : ℕ → Event
  submitted : Command → Event
  snapshot_triggered : Event

module _ {S : Type 0} (M : StateMachine S) where
  -- The node after the event, also where the operation threw.
  unfoldable pub step : Event → Node S → Node S
  step (vote_requested r) n = (handle_request_vote r n).1
  step (entries_received r) n = (handle_append_entries M r n).1
  step (snapshot_received r) n = (handle_install_snapshot M r n).1
  step election_started n = (start_election n).1
  step vote_sent n = count_vote_sent n
  step (vote_answered term count r) n = (on_vote_response term count r n).1
  step (election_finished term count) n = (finish_election M term count n).1
  step (attempt_prepared peer heartbeat_only) n = (prepare peer heartbeat_only n).1
  step (install_answered peer term r) n = (on_install_response peer term r n).1
  step (append_answered peer term r) n = (on_append_response peer term r n).1
  step (round_finished term) n = (finish_round M term n).1
  step (submitted c) n = (submit M c n).1
  step snapshot_triggered n = (trigger_snapshot M n).1

  unfoldable pub run : List Event → Node S → Node S
  run [] n = n
  run (e ∷ es) n = run es (step e n)

  -- Along the run no term is the largest 64-bit number, which an election would wrap to 0.
  unfoldable pub TermsFit : List Event → Node S → Type 0
  TermsFit [] n = Unit
  TermsFit (e ∷ es) n = (current_term n + 1 < word) × TermsFit es (step e n)
