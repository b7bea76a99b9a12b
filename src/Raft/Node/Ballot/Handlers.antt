-- ===== src/Raft/Node/Ballot/Handlers.antt =====
-- The three RPC handlers keep the ballot.
use nebula_kv.Prelude.{
  ℕ, refl, inl, inr, false, List, [], arith, beq_iff, Bool-cases, ◌==◌, ltb, if◌then◌else◌, Option,
  none, some,
}
use nebula_kv.Prelude.Result.{Result}
use nebula_kv.Raft.Types.{
  RequestVoteRequest, StateMachine, AppendEntriesRequest, LogEntry, InstallSnapshotRequest,
  Snapshot,
}
use nebula_kv.Raft.Node.State.{Node, current_term, voted_for, become_follower, persist_log, term_at}
use nebula_kv.Raft.Node.Vote.{
  handle_request_vote, decide_vote, grants, count_vote_request, catch_up,
}
use nebula_kv.Raft.Node.Commit.{save_snapshot}
use nebula_kv.Raft.Node.Log.Merge.{LoopEnd, merge_loop, bad_index, finished}
use nebula_kv.Raft.Node.Append.{
  merged, accept_request, follow_commit, after_merge, check_previous, consider,
  handle_append_entries, count_append,
}
use nebula_kv.Raft.Node.Install.{
  handle_install_snapshot, install, cut_log, into_machine, adopt, accept_snapshot, snapshot_of,
}
use nebula_kv.Raft.Node.Ballot.Rules.{
  Advances, Advances-refl, Advances-trans, unchanged, written, if_Advances, if_rule,
  resume-Advances, then_apply, then_persist,
}

module _ {S : Type 0} where
  decide_vote-Advances : (r : RequestVoteRequest) (n : Node S) → Advances n (decide_vote r n).1
  unfolding decide_vote grants
  decide_vote-Advances r n =
      ground (arith, beq_iff (voted_for n) [], beq_iff (voted_for n) r.candidate_id)

  catch_up-Advances : (t : ℕ) (n : Node S) → Advances n (catch_up t n)
  unfolding catch_up become_follower
  catch_up-Advances t n = ground arith

  pub handle_request_vote-Advances :
      (r : RequestVoteRequest) (n : Node S) → Advances n (handle_request_vote r n).1
  unfolding handle_request_vote
  handle_request_vote-Advances r n0 =
      let n = count_vote_request n0 in
      elim (Bool-cases (ltb r.term (current_term n0))) [
        | inl old ↦ rw old (unchanged n0 n refl refl refl)
        | inr fits ↦ rw fits (
            Advances-trans n0 (catch_up r.term n) (decide_vote r (catch_up r.term n)).1
              (Advances-trans n0 n _ (unchanged n0 n refl refl refl) (catch_up-Advances r.term n))
              (decide_vote-Advances r (catch_up r.term n)))
      ]

  merged-Advances : (n : Node S) (x : Result LoopEnd × List LogEntry) → Advances n (merged x n).1
  merged-Advances n (r, log) = unchanged n _ refl refl refl

  accept_request-Advances :
      (r : AppendEntriesRequest) (n : Node S) → Advances n (accept_request r n)
  unfolding accept_request become_follower
  accept_request-Advances r n = ground arith

  accept_snapshot-Advances :
      (r : InstallSnapshotRequest) (n : Node S) → Advances n (accept_snapshot r n)
  unfolding become_follower
  accept_snapshot-Advances r n = ground arith

module _ {S : Type 0} (M : StateMachine S) where
  follow_commit-Advances : (c : ℕ) (n : Node S) → Advances n (follow_commit M c n).1
  unfolding follow_commit
  follow_commit-Advances c n = elim (Bool-cases (ltb n.hard_state.commit_index c)) [
    | inl p ↦ rw p (then_persist n tt _ (then_apply M n _ refl refl refl))
    | inr p ↦ rw p (Advances-refl n)
  ]

  after_merge-Advances :
      (r : AppendEntriesRequest) (l : LoopEnd) (n : Node S) → Advances n (after_merge M r l n).1
  unfolding after_merge
  after_merge-Advances r bad_index n = Advances-refl n
  after_merge-Advances r (finished changed) n =
      let n' = if changed then persist_log n else n in
      resume-Advances n _ (follow_commit M r.leader_commit n')
        (Advances-trans n n' _
          (if_Advances n changed _ _ (unchanged n _ refl refl refl) (Advances-refl n))
          (follow_commit-Advances r.leader_commit n'))
        (λ _ m. Advances-refl m)

  check_previous-Advances :
      (r : AppendEntriesRequest) (o : Option ℕ) (n : Node S) → Advances n (check_previous M r o n).1
  unfolding check_previous
  check_previous-Advances r none n = Advances-refl n
  check_previous-Advances r (some t) n = elim (Bool-cases (t == r.previous_log_term)) [
    | inr p ↦ rw p (Advances-refl n)
    | inl p ↦ rw p (
        resume-Advances n _ _
          (merged-Advances n (merge_loop n.snapshot r.previous_log_index 0 r.entries false n.log))
          (after_merge-Advances r))
  ]

  consider-Advances : (r : AppendEntriesRequest) (n : Node S) → Advances n (consider M r n).1
  unfolding consider
  consider-Advances r n =
      search (if_rule, Advances-refl, check_previous-Advances r (term_at n r.previous_log_index) n)

  pub handle_append_entries-Advances :
      (r : AppendEntriesRequest) (n : Node S) → Advances n (handle_append_entries M r n).1
  unfolding handle_append_entries
  handle_append_entries-Advances r n0 =
      let n = count_append n0 in
      let n' = accept_request r n in
      let start = unchanged n0 n refl refl refl in
      let considered =
        Advances-trans n0 n _ start
          (Advances-trans n n' _ (accept_request-Advances r n) (consider-Advances r n')) in
      search (if_rule, start, considered)

  cut_log-Advances : (r : InstallSnapshotRequest) (n : Node S) → Advances n (cut_log r n)
  unfolding cut_log
  cut_log-Advances r n = unchanged n _ refl refl refl

  save_snapshot-Advances : (s : Snapshot) (n : Node S) → Advances n (save_snapshot s n).1
  unfolding save_snapshot
  save_snapshot-Advances s n = ground arith

  into_machine-Advances : (s : Snapshot) (n : Node S) → Advances n (into_machine M s n).1
  into_machine-Advances s n = unchanged n _ refl refl refl

  install-Advances : (r : InstallSnapshotRequest) (n : Node S) → Advances n (install M r n).1
  unfolding install
  install-Advances r n =
      let s = snapshot_of r in
      let n' = cut_log r n in
      resume-Advances n _ (save_snapshot s n')
        (Advances-trans n n' _ (cut_log-Advances r n) (save_snapshot-Advances s n'))
        (λ _ m.
          resume-Advances m _ (into_machine M s (adopt s m))
            (Advances-trans m (adopt s m) _ (unchanged m _ refl refl refl)
              (into_machine-Advances s (adopt s m)))
            (λ _ m'. written m' _ refl refl refl))

  pub handle_install_snapshot-Advances :
      (r : InstallSnapshotRequest) (n : Node S) → Advances n (handle_install_snapshot M r n).1
  unfolding handle_install_snapshot
  handle_install_snapshot-Advances r n =
      let n' = accept_snapshot r n in
      let start = accept_snapshot-Advances r n in
      let installed = Advances-trans n n' _ start (install-Advances r n') in
      search (if_rule, start, installed, Advances-refl)
