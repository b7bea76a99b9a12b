-- ===== src/Raft/Node/Ballot/Once.antt =====
-- What a granted vote promises.
use nebula_kv.Prelude.{◌<◌, ◌≡◌, inl, inr, ◌⊎◌, true, false, [], arith, beq_iff, ltb, Bool-cases}
use mathlib.Core.Bool.{false≢true}
use nebula_kv.Raft.Types.{RequestVoteRequest}
use nebula_kv.Raft.Node.State.{Node, current_term, voted_for, become_follower}
use nebula_kv.Raft.Node.Vote.{
  handle_request_vote, decide_vote, grants, count_vote_request, catch_up,
}

module _ {S : Type 0} where
  -- What a granted vote says: the request's term is the node's, and the vote stands in memory and on
  -- disk when the answer leaves.
  pub record Granted (r : RequestVoteRequest) (n n' : Node S) : Type 0 where
    pub term : current_term n' ≡ r.term
    pub vote : voted_for n' ≡ r.candidate_id
    pub disk : n'.disk.hard_state ≡ n'.hard_state
    pub free :
        (current_term n < r.term)
        ⊎ ((current_term n ≡ r.term) × ((voted_for n ≡ []) ⊎ (voted_for n ≡ r.candidate_id)))

  decide_vote-Granted :
      (r : RequestVoteRequest) (n : Node S)
      → current_term n ≡ r.term
      → (decide_vote r n).0.vote_granted ≡ true
      → Granted r n (decide_vote r n).1
  unfolding decide_vote grants
  decide_vote-Granted r n e h =
      ground (arith, beq_iff (voted_for n) [], beq_iff (voted_for n) r.candidate_id)

  catch_up_term :
      (r : RequestVoteRequest) (n : Node S)
      → ltb r.term (current_term n) ≡ false
      → (current_term (catch_up r.term n) ≡ r.term)
        × ((current_term n < r.term) ⊎ (voted_for (catch_up r.term n) ≡ voted_for n))
  unfolding catch_up become_follower
  catch_up_term r n h = ground arith

  -- A granted vote is for the request's term, stands in memory and on disk when the answer leaves,
  -- and was still free.
  pub handle_request_vote-Granted :
      (r : RequestVoteRequest) (n : Node S)
      → (handle_request_vote r n).0.vote_granted ≡ true
      → Granted r n (handle_request_vote r n).1
  unfolding handle_request_vote
  handle_request_vote-Granted r n0 h = elim (Bool-cases (ltb r.term (current_term n0))) [
    | inl old ↦ absurd (false≢true (rw old at h))
    | inr fits ↦
        let n = count_vote_request n0 in
        let c = catch_up_term r n fits in
        let g = decide_vote-Granted r (catch_up r.term n) c.0 (rw fits at h) in
        rw fits (record {
          term = g.term;
          vote = g.vote;
          disk = g.disk;
          free = ground (arith, g.free, c.1);
        })
  ]
