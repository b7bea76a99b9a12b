-- ===== src/Raft/Node/Election.antt =====
-- `RaftNode::begin_election` and `append_local_entry_locked`. The mutex is released while a peer is
-- asked, so the campaign is three kinds of steps, with other handlers in between: its start, each
-- answer, and its end.
use nebula_kv.Prelude.{
  ℕ, ◌+◌, Bool, true, false, ◌&&◌, ◌||◌, not, Option, none, some, [], ◌∷◌, ◌++◌, ltb, leb, ◌==◌,
  if◌then◌else◌,
}
use nebula_kv.Prelude.Result.{ok, throw, logic_error}
use nebula_kv.Prelude.Exec.{Exec, resume}
use nebula_kv.Raft.Types.{
  Role, candidate, leader, Command, noop, LogEntry, RequestVoteRequest, RequestVoteResponse,
  StateMachine, next,
}
use nebula_kv.Raft.Node.State.{
  Node, last_log_index, last_log_term, become_follower, become_leader, quorum_size, persist_log,
  persist_hard_state,
}
use nebula_kv.Raft.Node.Commit.{set_commit_index, apply_committed}

abbrev pub is_leader : Role → Bool
is_leader leader = true
is_leader _ = false

abbrev pub is_candidate : Role → Bool
is_candidate candidate = true
is_candidate _ = false

-- What an answer does to the loop over the peers: end it, or go on with the votes so far.
pub data Campaign : Type 0 where
  ended : Campaign
  votes : ℕ → Campaign

-- `Command{}`
abbrev pub no_command : Command
no_command = record { type = noop; key = []; value = [] }

module _ {S : Type 0} where
  abbrev stand : Node S → Node S
  stand n = persist_hard_state (record n {
    role = candidate;
    leader_id = [];
    hard_state = record (n.hard_state) {
      current_term = next n.hard_state.current_term;
      voted_for = n.options.node_id;
    };
    metrics = record (n.metrics) { elections_started = next n.metrics.elections_started };
  })

  abbrev ballot_request : Node S → RequestVoteRequest
  ballot_request n = record {
    term = n.hard_state.current_term;
    candidate_id = n.options.node_id;
    last_log_index = last_log_index n;
    last_log_term = last_log_term n;
  }

  unfoldable pub start_election : Node S → Option RequestVoteRequest × Node S
  start_election n =
      if is_leader n.role then (none, n) else (let n' = stand n in (some (ballot_request n'), n'))

  unfoldable pub count_vote_sent : Node S → Node S
  count_vote_sent n = record n {
    metrics = record (n.metrics) { vote_requests_sent = next n.metrics.vote_requests_sent };
  }

  unfoldable pub on_vote_response : ℕ → ℕ → Option RequestVoteResponse → Node S → Campaign × Node S
  on_vote_response election_term count none n = (votes count, n)
  on_vote_response election_term count (some r) n =
      if ltb n.hard_state.current_term r.term
      then (ended, become_follower r.term [] n)
      else if not (is_candidate n.role) || not (n.hard_state.current_term == election_term)
      then (ended, n)
      else (votes (if r.vote_granted then count + 1 else count), n)

  unfoldable pub append_local_entry : Command → Exec (Node S) LogEntry
  append_local_entry command n =
      if not (is_leader n.role) || n.hard_state.current_term == 0
      then (throw logic_error, n)
      else (let e : LogEntry = record {
        index = next (last_log_index n);
        term = n.hard_state.current_term;
        command = command;
      } in
          (ok e, record n { log = n.log ++ e ∷ [] }))

module _ {S : Type 0} (M : StateMachine S) where
  -- Alone in the cluster, a node commits what it has appended.
  unfoldable pub commit_alone : ℕ → Exec (Node S) (Unit {0})
  commit_alone index n =
      resume (λ _ n'. (ok tt, persist_hard_state n')) (apply_committed M (set_commit_index index n))

  abbrev pub crown : Exec (Node S) Bool
  crown n =
      if quorum_size n == 1
      then resume (λ _ n'. (ok true, n')) (commit_alone (last_log_index n) n)
      else (ok true, n)

  unfoldable pub finish_election : ℕ → ℕ → Exec (Node S) Bool
  unfolding append_local_entry commit_alone
  finish_election election_term count n =
      if is_candidate n.role
        && n.hard_state.current_term == election_term
        && leb (quorum_size n) count
      then resume (λ _ n'. crown (persist_log n')) (append_local_entry no_command (become_leader n))
      else (ok false, n)
