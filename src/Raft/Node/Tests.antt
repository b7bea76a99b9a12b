-- ===== src/Raft/Node/Tests.antt =====
-- Votes, requests and runs of the example node.
use nebula_kv.Prelude.{ℕ, ◌≡◌, refl, true, false, none, List, [], ◌∷◌, arith, beq}
use nebula_kv.Prelude.Result.{ok}
use nebula_kv.Raft.Types.{LogEntry, HardState, RequestVoteRequest, AppendEntriesRequest}
use nebula_kv.Raft.Node.Example.{recorder, options, entry, node}
use nebula_kv.Raft.Node.Log.{last_log_index, last_log_term, term_at}
use nebula_kv.Raft.Node.Log.Merge.{finished, merge_loop}
use nebula_kv.Raft.Node.Log.Agreement.{merge_loop-eq-merge}
use nebula_kv.Raft.Node.State.{Node, become_follower}
use nebula_kv.Raft.Node.Vote.{handle_request_vote, catch_up, decide_vote, grants}
use nebula_kv.Raft.Node.Append.{handle_append_entries}
use nebula_kv.Raft.Node.Append.Stores.{Matches, handle_append_entries-Matches}
use nebula_kv.Raft.Node.Run.{vote_requested, election_started, step, run, TermsFit}
use nebula_kv.Raft.Node.Election.{start_election}
use nebula_kv.Raft.Node.Ballot.Rules.{Advances}
use nebula_kv.Raft.Node.Ballot.Campaign.{run-Advances}
use nebula_kv.Raft.Node.Recover.{make_node, validate_options}
use nebula_kv.Raft.Node.Ballot.Restarts.{restarts, live, LifeFits, one_vote_across_restarts}
use nebula_kv.Raft.Node.Ballot.Once.{Granted, handle_request_vote-Granted}

abbrev ballot : ℕ → ℕ → RequestVoteRequest
ballot b t = record { term = t; candidate_id = b ∷ []; last_log_index = 2; last_log_term = 1 }

handle_request_vote-Granted_example :
    Granted (ballot b'b' 2) node (handle_request_vote (ballot b'b' 2) node).1
unfolding handle_request_vote catch_up decide_vote become_follower grants beq last_log_index
    last_log_term
handle_request_vote-Granted_example = handle_request_vote-Granted (ballot b'b' 2) node refl

run-Advances_example :
    Advances node (run recorder (election_started ∷ vote_requested (ballot b'b' 2) ∷ []) node)
unfolding handle_request_vote catch_up decide_vote become_follower grants beq last_log_index
    last_log_term run step TermsFit start_election
run-Advances_example =
    run-Advances recorder (election_started ∷ vote_requested (ballot b'b' 2) ∷ []) node
      (omega arith, (omega arith, tt))

-- A leader of term 2 replaces the second entry.
abbrev request : AppendEntriesRequest
request = record {
  term = 2;
  leader_id = b'b' ∷ [];
  previous_log_index = 1;
  previous_log_term = 1;
  entries = entry 2 2 ∷ entry 3 2 ∷ [];
  leader_commit = 0;
}

request-Matches : Matches request node (entry 1 1 ∷ []) (entry 2 1 ∷ [])
unfolding term_at last_log_index
request-Matches = record {
  term = omega arith;
  split = refl;
  contiguous = record { follows = omega arith; fits = omega arith };
  previous = refl;
  previous_term = refl;
  entries = record { follows = omega arith; bounded = omega arith };
}

handle_append_entries-Matches_example :
    (handle_append_entries recorder request node).1.log ≡ entry 1 1 ∷ entry 2 2 ∷ entry 3 2 ∷ []
handle_append_entries-Matches_example =
    (handle_append_entries-Matches recorder request node (entry 1 1 ∷ []) (entry 2 1 ∷ [])
      request-Matches (omega arith)).1

merge_loop-eq-merge_example :
    merge_loop none 1 0 request.entries false node.log
    ≡ (ok (finished true), entry 1 1 ∷ entry 2 2 ∷ entry 3 2 ∷ [])
merge_loop-eq-merge_example =
    merge_loop-eq-merge none 1 0 request.entries (entry 1 1 ∷ []) (entry 2 1 ∷ []) false
      request-Matches.contiguous request-Matches.entries (omega arith)

abbrev voted : HardState
voted = record { current_term = 2; voted_for = b'b' ∷ []; commit_index = 0; last_applied = 0 }

-- The node after its vote for `b`, a crash and the restart.
abbrev restarted : Node (List LogEntry)
restarted = record node { hard_state = voted; disk = record (node.disk) { hard_state = voted } }

one_vote_across_restarts_example : (ballot b'b' 2).candidate_id ≡ (ballot b'b' 2).candidate_id
unfolding handle_request_vote catch_up decide_vote become_follower grants beq last_log_index
    last_log_term live LifeFits make_node validate_options
one_vote_across_restarts_example =
    one_vote_across_restarts recorder (ballot b'b' 2) (ballot b'b' 2) node restarted
      (restarts options [] ∷ []) (λ e. cc) (λ n p. tt) refl refl refl refl
