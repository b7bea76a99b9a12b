-- ===== src/Raft/Node/Append.antt =====
-- `RaftNode::handle_append_entries`
pub mod Stores
pub mod Follows
mod Tests
use nebula_kv.Prelude.{
  ℕ, zero, suc, Bool, true, false, ◌&&◌, ◌||◌, not, Option, none, some, List, ltb, ◌==◌, min,
  if◌then◌else◌,
}
use nebula_kv.Prelude.Result.{Result, ok}
use nebula_kv.Prelude.Exec.{Exec, resume}
use nebula_kv.Raft.Types.{
  LogEntry, Role, follower, AppendEntriesRequest, AppendEntriesResponse, StateMachine, next,
}
use nebula_kv.Raft.Node.Log.{snapshot_index, back_index}
use nebula_kv.Raft.Node.Log.Merge.{LoopEnd, bad_index, finished, merge_loop}
use nebula_kv.Raft.Node.State.{
  Node, last_log_index, term_at, become_follower, persist_log, persist_hard_state,
}
use nebula_kv.Raft.Node.Commit.{term_is, set_commit_index, apply_committed}

abbrev pub is_follower : Role → Bool
is_follower follower = true
is_follower _ = false

module _ {S : Type 0} where
  abbrev pub reply : Bool → ℕ → ℕ → Node S → Result AppendEntriesResponse × Node S
  reply success match_index conflict_index n = (
    ok (record {
      term = n.hard_state.current_term;
      success = success;
      match_index = match_index;
      conflict_index = conflict_index;
    }),
    n,
  )

  -- The `while` loop that looks for the first index of the conflicting term.
  unfoldable pub conflict_from : Node S → ℕ → ℕ → ℕ
  conflict_from n t zero = zero
  conflict_from n t (suc c) =
      let rest = conflict_from n t c in
      if ltb (next (snapshot_index n.snapshot)) (suc c) && term_is (term_at n c) t
      then rest
      else suc c

  abbrev pub merged : Result LoopEnd × List LogEntry → Node S → Result LoopEnd × Node S
  merged (r, log) n = (r, record n { log = log })

  unfoldable pub accept_request : AppendEntriesRequest → Node S → Node S
  accept_request r n0 =
      let n =
        if ltb n0.hard_state.current_term r.term || not (is_follower n0.role)
        then become_follower r.term r.leader_id n0
        else n0 in
      record n { leader_id = r.leader_id }

  abbrev pub count_append : Node S → Node S
  count_append n = record n {
    metrics = record (n.metrics) {
      append_entries_received = next n.metrics.append_entries_received;
    };
  }

  abbrev pub success_reply : AppendEntriesRequest → Node S → Result AppendEntriesResponse × Node S
  success_reply r n =
      reply true (min (back_index r.previous_log_index r.entries) (last_log_index n)) 0 n

module _ {S : Type 0} (M : StateMachine S) where
  unfoldable pub follow_commit : ℕ → Exec (Node S) (Unit {0})
  follow_commit leader_commit n =
      if ltb n.hard_state.commit_index leader_commit
      then resume (λ _ n'. (ok tt, persist_hard_state n'))
          (apply_committed M (set_commit_index (min leader_commit (last_log_index n)) n))
      else (ok tt, n)

  unfoldable pub after_merge : AppendEntriesRequest → LoopEnd → Exec (Node S) AppendEntriesResponse
  unfolding follow_commit
  after_merge r bad_index n = reply false (last_log_index n) (next (last_log_index n)) n
  after_merge r (finished changed) n =
      resume (λ _. success_reply r)
        (follow_commit r.leader_commit (if changed then persist_log n else n))

  -- From the check of the previous entry on.
  unfoldable pub check_previous :
      AppendEntriesRequest → Option ℕ → Exec (Node S) AppendEntriesResponse
  unfolding after_merge
  check_previous r none n = reply false (last_log_index n) (next (last_log_index n)) n
  check_previous r (some t) n =
      if not (t == r.previous_log_term)
      then reply false 0 (conflict_from n t r.previous_log_index) n
      else resume (after_merge r)
          (merged (merge_loop n.snapshot r.previous_log_index 0 r.entries false n.log) n)

  unfoldable pub consider : AppendEntriesRequest → Exec (Node S) AppendEntriesResponse
  unfolding check_previous
  consider r n =
      if ltb r.previous_log_index (snapshot_index n.snapshot)
      then reply false (snapshot_index n.snapshot) (next (snapshot_index n.snapshot)) n
      else check_previous r (term_at n r.previous_log_index) n

  unfoldable pub handle_append_entries : AppendEntriesRequest → Exec (Node S) AppendEntriesResponse
  unfolding consider accept_request
  handle_append_entries r n0 =
      let n = count_append n0 in
      if ltb r.term n.hard_state.current_term
      then reply false (last_log_index n) (next (last_log_index n)) n
      else consider r (accept_request r n)
