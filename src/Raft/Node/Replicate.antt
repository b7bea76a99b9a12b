-- ===== src/Raft/Node/Replicate.antt =====
-- `RaftNode::replicate_peer` and `replicate_all`: what is done under the mutex before a request is
-- sent, after its answer, and after the round over the peers.
use nebula_kv.Prelude.{
  ℕ, ◌+◌, ◌-◌, ◌%◌, Bool, true, false, ◌&&◌, ◌||◌, not, Option, none, some, [], ltb, ◌==◌, min, max,
  if◌then◌else◌,
}
use nebula_kv.Prelude.Result.{Result, ok}
use nebula_kv.Prelude.Exec.{Exec, resume}
use nebula_kv.Prelude.OrderedMap.{find, insert_or_assign}
use nebula_kv.Raft.Types.{
  NodeId, Peer, Snapshot, AppendEntriesRequest, AppendEntriesResponse, InstallSnapshotRequest,
  InstallSnapshotResponse, StateMachine, word, next,
}
use nebula_kv.Raft.Node.Log.{entries_from}
use nebula_kv.Raft.Node.State.{Node, last_log_index, term_at, become_follower, persist_hard_state}
use nebula_kv.Raft.Node.Commit.{is_covered, advance_commit, apply_committed, match_of}
use nebula_kv.Raft.Node.Election.{is_leader}

-- What one attempt of the loop sends, if anything.
pub data Outgoing : Type 0 where
  stop retry : Outgoing
  snapshot_request : InstallSnapshotRequest → Outgoing
  append_request : AppendEntriesRequest → Outgoing

-- How one attempt ends: with the result of `replicate_peer`, or with another attempt.
pub data Attempt : Type 0 where
  returned : Bool → Attempt
  again : Attempt

-- `next == 0U ? 0U : next - 1U`
abbrev before : ℕ → ℕ
before n = if n == 0 then 0 else n - 1

-- `next - 1U`, on 64 bits
abbrev minus_one : ℕ → ℕ
minus_one i = (i + word - 1) % word

abbrev step_back : Option Snapshot → ℕ → ℕ
step_back none i = max 1 (minus_one i)
step_back (some s) i = s.last_included_index

abbrev fallback : ℕ → ℕ → ℕ
fallback conflict_index current_next =
    if conflict_index == 0 then max 1 (minus_one current_next) else conflict_index

module _ {S : Type 0} where
  abbrev next_for : NodeId → Node S → ℕ
  next_for id n = elim (find id n.next_index) [ none ↦ next (last_log_index n) | some i ↦ i ]

  abbrev set_next : NodeId → ℕ → Node S → Node S
  set_next id i n = record n { next_index = insert_or_assign id i n.next_index }

  abbrev set_match : NodeId → ℕ → Node S → Node S
  set_match id i n = record n { match_index = insert_or_assign id i n.match_index }

  abbrev count_failure : Node S → Node S
  count_failure n = record n {
    metrics = record (n.metrics) { replication_failures = next n.metrics.replication_failures };
  }

  abbrev count_append_sent : Node S → Node S
  count_append_sent n = record n {
    metrics = record (n.metrics) { append_entries_sent = next n.metrics.append_entries_sent };
  }

  abbrev snapshot_for : Option Snapshot → Node S → Outgoing
  snapshot_for none n = stop
  snapshot_for (some s) n = snapshot_request (record {
    term = n.hard_state.current_term;
    leader_id = n.options.node_id;
    last_included_index = s.last_included_index;
    last_included_term = s.last_included_term;
    payload = s.payload;
  })

  abbrev append_for : Peer → Bool → ℕ → Option ℕ → Node S → Outgoing × Node S
  append_for peer heartbeat_only i none n = (retry, set_next peer.id (step_back n.snapshot i) n)
  append_for peer heartbeat_only i (some t) n = (
    append_request (record {
      term = n.hard_state.current_term;
      leader_id = n.options.node_id;
      previous_log_index = before i;
      previous_log_term = t;
      entries =
          if heartbeat_only
          then []
          else entries_from n.snapshot n.log n.options.max_append_entries i;
      leader_commit = n.hard_state.commit_index;
    }),
    count_append_sent n,
  )

  unfoldable pub prepare : Peer → Bool → Node S → Outgoing × Node S
  prepare peer heartbeat_only n0 =
      if not (is_leader n0.role)
      then (stop, n0)
      else (let i = next_for peer.id n0 in
          let n = set_next peer.id i n0 in
          if is_covered n.snapshot i
          then (snapshot_for n.snapshot n, n)
          else append_for peer heartbeat_only i (term_at n (before i)) n)

  unfoldable pub on_install_response :
      Peer → ℕ → Option InstallSnapshotResponse → Node S → Bool × Node S
  on_install_response peer request_term none n = (false, count_failure n)
  on_install_response peer request_term (some r) n =
      if ltb n.hard_state.current_term r.term
      then (false, become_follower r.term [] n)
      else if not (is_leader n.role) || not (n.hard_state.current_term == request_term)
      then (false, n)
      else if r.success
      then (true, set_next peer.id (next r.installed_index) (set_match peer.id r.installed_index n))
      else (false, count_failure n)

  unfoldable pub on_append_response :
      Peer → ℕ → Option AppendEntriesResponse → Node S → Attempt × Node S
  on_append_response peer request_term none n = (returned false, count_failure n)
  on_append_response peer request_term (some r) n =
      if ltb n.hard_state.current_term r.term
      then (returned false, become_follower r.term [] n)
      else if not (is_leader n.role) || not (n.hard_state.current_term == request_term)
      then (returned false, n)
      else if r.success
      then (
        returned true,
        set_next peer.id (next r.match_index) (set_match peer.id r.match_index n),
      )
      else (
          -- `next_index_[peer.id]` makes a zero where the key is missing.
          let current_next = match_of (find peer.id n.next_index) in
          (
            again,
            set_next peer.id (min current_next (fallback r.conflict_index current_next))
                (count_failure n),
          ))

module _ {S : Type 0} (M : StateMachine S) where
  abbrev pub commit_advanced : Bool × Node S → Result Bool × Node S
  commit_advanced (false, n) = (ok false, n)
  commit_advanced (true, n) =
      resume (λ _ n'. (ok true, persist_hard_state n')) (apply_committed M n)

  -- After the round: whether the commit index moved.
  unfoldable pub finish_round : ℕ → Exec (Node S) Bool
  finish_round request_term n =
      if is_leader n.role && n.hard_state.current_term == request_term
      then commit_advanced (advance_commit n)
      else (ok false, n)
