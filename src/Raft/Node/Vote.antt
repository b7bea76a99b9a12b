-- ===== src/Raft/Node/Vote.antt =====
-- `RaftNode::handle_request_vote`
use nebula_kv.Prelude.{ℕ, Bool, false, ◌&&◌, ◌||◌, [], Bytes, ltb, leb, ◌==◌, beq, if◌then◌else◌}
use nebula_kv.Raft.Types.{RequestVoteRequest, RequestVoteResponse, next}
use nebula_kv.Raft.Node.State.{
  Node, current_term, last_log_index, last_log_term, become_follower, persist_hard_state,
}

-- `std::string::empty`
abbrev pub is_empty : Bytes → Bool
is_empty s = beq s []

module _ {S : Type 0} where
  unfoldable pub candidate_is_current : RequestVoteRequest → Node S → Bool
  candidate_is_current r n =
      ltb (last_log_term n) r.last_log_term
      || r.last_log_term == last_log_term n && leb (last_log_index n) r.last_log_index

  unfoldable pub can_vote : RequestVoteRequest → Node S → Bool
  can_vote r n = is_empty n.hard_state.voted_for || beq n.hard_state.voted_for r.candidate_id

  unfoldable pub grants : RequestVoteRequest → Node S → Bool
  unfolding candidate_is_current can_vote
  grants r n = can_vote r n && candidate_is_current r n

  abbrev pub count_vote_request : Node S → Node S
  count_vote_request n = record n {
    metrics = record (n.metrics) { vote_requests_received = next n.metrics.vote_requests_received };
  }

  -- The vote, once the request's term is not older than the node's.
  unfoldable pub decide_vote : RequestVoteRequest → Node S → RequestVoteResponse × Node S
  decide_vote r n =
      if grants r n
      then (
        record { term = current_term n; vote_granted = grants r n },
        persist_hard_state
            (record n { hard_state = record (n.hard_state) { voted_for = r.candidate_id } }),
      )
      else (record { term = current_term n; vote_granted = grants r n }, n)

  -- A newer term makes a follower.
  unfoldable pub catch_up : ℕ → Node S → Node S
  catch_up term n = if ltb n.hard_state.current_term term then become_follower term [] n else n

  unfoldable pub handle_request_vote : RequestVoteRequest → Node S → RequestVoteResponse × Node S
  handle_request_vote r n0 =
      let n = count_vote_request n0 in
      if ltb r.term (current_term n)
      then (record { term = current_term n; vote_granted = false }, n)
      else decide_vote r (catch_up r.term n)
