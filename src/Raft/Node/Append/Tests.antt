-- ===== src/Raft/Node/Append/Tests.antt =====
-- A heartbeat that vouches for the first entry only, from a leader that has committed two: the follower
-- commits its own second entry, which the leader may not have.
use nebula_kv.Prelude.{◌≡◌, refl, [], ◌∷◌, arith}
use nebula_kv.Raft.Types.{AppendEntriesRequest}
use nebula_kv.Raft.Node.Example.{recorder, entry, node}
use nebula_kv.Raft.Node.Log.{last_log_index, term_at}
use nebula_kv.Raft.Node.State.{commit_index}
use nebula_kv.Raft.Node.Append.{handle_append_entries}
use nebula_kv.Raft.Node.Append.Stores.{Matches}
use nebula_kv.Raft.Node.Append.Follows.{handle_append_entries_commit}

abbrev heartbeat : AppendEntriesRequest
heartbeat = record {
  term = 2;
  leader_id = b'b' ∷ [];
  previous_log_index = 1;
  previous_log_term = 1;
  entries = [];
  leader_commit = 2;
}

heartbeat-Matches : Matches heartbeat node (entry 1 1 ∷ []) (entry 2 1 ∷ [])
unfolding term_at last_log_index
heartbeat-Matches = record {
  term = omega arith;
  split = refl;
  contiguous = record { follows = omega arith; fits = omega arith };
  previous = refl;
  previous_term = refl;
  entries = record { follows = omega arith; bounded = omega arith };
}

handle_append_entries_commit_example :
    commit_index (handle_append_entries recorder heartbeat node).1 ≡ 2
unfolding last_log_index
handle_append_entries_commit_example =
    handle_append_entries_commit recorder heartbeat node (entry 1 1 ∷ []) (entry 2 1 ∷ [])
      heartbeat-Matches
