-- ===== src/Raft/Node/Append/Follows.antt =====
-- How far an accepted AppendEntries request commits.
use nebula_kv.Prelude.{
  ℕ, ◌≡◌, refl, ◌∙◌, ap, Bool, true, false, List, ◌++◌, ltb, min, if◌then◌else◌, Bool-cases, inl,
  inr,
}
use nebula_kv.Prelude.Result.{Result, ok, throw}
use nebula_kv.Prelude.Exec.{resume}
use nebula_kv.Raft.Types.{LogEntry, AppendEntriesRequest, StateMachine}
use nebula_kv.Raft.Node.Log.{last_log_index}
use nebula_kv.Raft.Node.Log.Merge.{finished}
use nebula_kv.Raft.Node.Log.Agreement.{merge, differs}
use nebula_kv.Raft.Node.State.{Node, commit_index, persist_log, persist_hard_state}
use nebula_kv.Raft.Node.Commit.{apply_committed, set_commit_index}
use nebula_kv.Raft.Node.Commit.Frame.{apply_committed-SameRole}
use nebula_kv.Raft.Node.Append.{follow_commit, after_merge, handle_append_entries, success_reply}
use nebula_kv.Raft.Node.Append.Stores.{
  Matches, with_entries, handle_append_entries-merge, accept_keeps,
}

module _ {S : Type 0} (M : StateMachine S) where
  then_commit :
      (f : Unit {0} → Node S → Result (Unit {0}) × Node S) (x : Result (Unit {0}) × Node S)
      → ((n : Node S) → commit_index (f tt n).1 ≡ commit_index n)
      → commit_index (resume f x).1 ≡ commit_index x.1
  then_commit f (throw e, n) h = refl
  then_commit f (ok u, n) h = h n

  follow_commit_lem :
      (c : ℕ) (n : Node S)
      → commit_index (follow_commit M c n).1 ≡ (
          if ltb (commit_index n) c
          then min c (last_log_index n.snapshot n.log)
          else commit_index n)
  unfolding follow_commit
  follow_commit_lem c n = elim (Bool-cases (ltb (commit_index n) c)) [
    | inl p ↦
        let n' = set_commit_index (min c (last_log_index n.snapshot n.log)) n in
        rw p (
          then_commit (λ _ m. (ok tt, persist_hard_state m)) (apply_committed M n') (λ m. refl)
          ∙ (apply_committed-SameRole M n').commit)
    | inr p ↦ rw p refl
  ]

  then_reply :
      (r : AppendEntriesRequest) (x : Result (Unit {0}) × Node S)
      → commit_index (resume (λ _. success_reply r) x).1 ≡ commit_index x.1
  then_reply r (throw e, n) = refl
  then_reply r (ok u, n) = refl

  after_merge_commit :
      (r : AppendEntriesRequest) (d : Bool) (n : Node S)
      → commit_index (after_merge M r (finished d) n).1 ≡ (
          if ltb (commit_index n) r.leader_commit
          then min r.leader_commit (last_log_index n.snapshot n.log)
          else commit_index n)
  unfolding after_merge
  after_merge_commit r true n =
      then_reply r (follow_commit M r.leader_commit (persist_log n))
      ∙ follow_commit_lem r.leader_commit (persist_log n)
  after_merge_commit r false n =
      then_reply r (follow_commit M r.leader_commit n) ∙ follow_commit_lem r.leader_commit n

  -- An AppendEntries request that is accepted raises a commit index below the leader's to the
  -- smaller of the leader's and the last index of the log as the request leaves it, and keeps any
  -- other, also where applying the entries throws.
  pub handle_append_entries_commit :
      (r : AppendEntriesRequest) (n : Node S) (xs ys : List LogEntry)
      → Matches r n xs ys
      → commit_index (handle_append_entries M r n).1 ≡ (
          if ltb (commit_index n) r.leader_commit
          then min r.leader_commit (last_log_index n.snapshot (xs ++ merge ys r.entries))
          else commit_index n)
  handle_append_entries_commit r n xs ys m =
      let n' = with_entries r xs ys n in
      let (_, s, c, _) = accept_keeps r n in
      ap (λ x. commit_index x.1) (handle_append_entries-merge M r n xs ys m)
      ∙ after_merge_commit r (differs ys r.entries) n'
      ∙ rw (s, c) refl
