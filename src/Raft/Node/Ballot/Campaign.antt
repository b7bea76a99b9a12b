-- ===== src/Raft/Node/Ballot/Campaign.antt =====
-- The steps of the node's own threads keep the ballot.
use nebula_kv.Prelude.{
  ℕ, ◌+◌, ◌<◌, refl, Bool, true, false, List, [], ◌∷◌, arith, Option, none, some,
}
use nebula_kv.Prelude.Result.{Result, ok, throw}
use nebula_kv.Raft.Types.{StateMachine, word, LogEntry, Command}
use nebula_kv.Raft.Node.State.{
  Node, current_term, become_follower, persist_log, become_leader, last_log_index,
}
use nebula_kv.Raft.Node.Commit.{advance_commit}
use nebula_kv.Raft.Node.Commit.Frame.{maybe_create_snapshot-SameRole}
use nebula_kv.Raft.Types.{Peer, RequestVoteResponse, InstallSnapshotResponse, AppendEntriesResponse}
use nebula_kv.Raft.Node.Election.{
  start_election, count_vote_sent, on_vote_response, append_local_entry, commit_alone,
  finish_election, no_command, crown,
}
use nebula_kv.Raft.Node.Replicate.{
  prepare, on_install_response, on_append_response, finish_round, commit_advanced,
}
use nebula_kv.Raft.Node.Submit.{
  submit, replicate_entry, checked, valid_client_command, trigger_snapshot, with_threshold,
}
use nebula_kv.Raft.Node.Run.{
  Event, vote_requested, entries_received, snapshot_received, election_started, vote_sent,
  vote_answered, election_finished, attempt_prepared, install_answered, append_answered,
  round_finished, submitted, snapshot_triggered, step, run, TermsFit,
}
use nebula_kv.Raft.Node.Ballot.Handlers.{
  handle_request_vote-Advances, handle_append_entries-Advances, handle_install_snapshot-Advances,
}
use nebula_kv.Raft.Node.Ballot.Rules.{
  Advances, Advances-refl, Advances-trans, unchanged, if_rule, resume-Advances, then_apply,
  then_persist, apply_committed-Advances, become_follower-Advances, SameRole-Advances,
}

module _ {S : Type 0} where
  -- A campaign moves to the next term, unless 64 bits wrap.
  start_election-Advances :
      (n : Node S) → current_term n + 1 < word → Advances n (start_election n).1
  unfolding start_election
  start_election-Advances n h = ground arith

  on_vote_response-Advances :
      (term count : ℕ) (o : Option RequestVoteResponse) (n : Node S)
      → Advances n (on_vote_response term count o n).1
  unfolding on_vote_response
  on_vote_response-Advances term count none n = Advances-refl n
  on_vote_response-Advances term count (some r) n =
      search (if_rule, Advances-refl, become_follower-Advances r.term [] n)

  append_local_entry-Advances : (c : Command) (n : Node S) → Advances n (append_local_entry c n).1
  unfolding append_local_entry
  append_local_entry-Advances c n = ground arith

  become_leader-Advances : (n : Node S) → Advances n (become_leader n)
  unfolding become_leader
  become_leader-Advances n = unchanged n _ refl refl refl

  prepare-Advances : (p : Peer) (b : Bool) (n : Node S) → Advances n (prepare p b n).1
  unfolding prepare
  prepare-Advances p b n = ground arith

  on_install_response-Advances :
      (p : Peer) (t : ℕ) (o : Option InstallSnapshotResponse) (n : Node S)
      → Advances n (on_install_response p t o n).1
  unfolding on_install_response become_follower
  on_install_response-Advances p t none n = unchanged n _ refl refl refl
  on_install_response-Advances p t (some r) n = ground arith

  on_append_response-Advances :
      (p : Peer) (t : ℕ) (o : Option AppendEntriesResponse) (n : Node S)
      → Advances n (on_append_response p t o n).1
  unfolding on_append_response become_follower
  on_append_response-Advances p t none n = unchanged n _ refl refl refl
  on_append_response-Advances p t (some r) n = ground arith

module _ {S : Type 0} (M : StateMachine S) where
  commit_alone-Advances : (i : ℕ) (n : Node S) → Advances n (commit_alone M i n).1
  unfolding commit_alone
  commit_alone-Advances i n = then_persist n tt _ (then_apply M n _ refl refl refl)

  crown-Advances : (n : Node S) → Advances n (crown M n).1
  crown-Advances n =
      search (if_rule, resume-Advances, commit_alone-Advances (last_log_index n) n, Advances-refl)

  finish_election-Advances : (t count : ℕ) (n : Node S) → Advances n (finish_election M t count n).1
  unfolding finish_election
  finish_election-Advances t count n =
      let l = become_leader n in
      let won =
        resume-Advances n (λ _ n'. crown M (persist_log n')) (append_local_entry no_command l)
          (Advances-trans n l _ (become_leader-Advances n)
            (append_local_entry-Advances no_command l))
          (λ _ m.
            Advances-trans m (persist_log m) _ (unchanged m _ refl refl refl)
              (crown-Advances (persist_log m))) in
      search (if_rule, won, Advances-refl)

  commit_advanced-Advances :
      (n : Node S) (x : Bool × Node S) → Advances n x.1 → Advances n (commit_advanced M x).1
  commit_advanced-Advances n (false, m) p = p
  commit_advanced-Advances n (true, m) p =
      then_persist n true _ (Advances-trans n m _ p (apply_committed-Advances M m))

  finish_round-Advances : (t : ℕ) (n : Node S) → Advances n (finish_round M t n).1
  unfolding finish_round
  finish_round-Advances t n =
      let moved =
        commit_advanced-Advances n (advance_commit n) (unfold advance_commit in ground arith) in
      search (if_rule, moved, Advances-refl)

  replicate_entry-Advances : (e : LogEntry) (n : Node S) → Advances n (replicate_entry M e n).1
  unfolding replicate_entry
  replicate_entry-Advances e n0 =
      let n = persist_log n0 in
      let start = unchanged n0 n refl refl refl in
      let alone = Advances-trans n0 n _ start (commit_alone-Advances e.index n) in
      search (if_rule, resume-Advances, start, alone, Advances-refl)

  checked-Advances : (c : Command) (v : Result Bool) (n : Node S) → Advances n (checked M c v n).1
  checked-Advances c (throw e) n = Advances-refl n
  checked-Advances c (ok b) n = search (
    if_rule,
    resume-Advances,
    append_local_entry-Advances c n,
    replicate_entry-Advances,
    Advances-refl,
  )

  submit-Advances : (c : Command) (n : Node S) → Advances n (submit M c n).1
  unfolding submit
  submit-Advances c n = checked-Advances c (valid_client_command c) n

  trigger_snapshot-Advances : (n : Node S) → Advances n (trigger_snapshot M n).1
  unfolding trigger_snapshot
  trigger_snapshot-Advances n =
      let n' = with_threshold M 1 n in
      let taken =
        Advances-trans n n' _ (unchanged n n' refl refl refl)
          (SameRole-Advances n' _ (maybe_create_snapshot-SameRole M n')) in
      let back = λ (m : Node S).
        unchanged m (with_threshold M n.options.snapshot_threshold_entries m) refl refl in
      search (if_rule, resume-Advances, taken, back)

  -- Whatever happens to a node, its term does not fall, and within a term its vote stays.
  pub step-Advances : (e : Event) (n : Node S) → current_term n + 1 < word → Advances n (step M e n)
  unfolding step count_vote_sent
  step-Advances (vote_requested r) n h = handle_request_vote-Advances r n
  step-Advances (entries_received r) n h = handle_append_entries-Advances M r n
  step-Advances (snapshot_received r) n h = handle_install_snapshot-Advances M r n
  step-Advances election_started n h = start_election-Advances n h
  step-Advances vote_sent n h = unchanged n _ refl refl refl
  step-Advances (vote_answered t count r) n h = on_vote_response-Advances t count r n
  step-Advances (election_finished t count) n h = finish_election-Advances t count n
  step-Advances (attempt_prepared p b) n h = prepare-Advances p b n
  step-Advances (install_answered p t r) n h = on_install_response-Advances p t r n
  step-Advances (append_answered p t r) n h = on_append_response-Advances p t r n
  step-Advances (round_finished t) n h = finish_round-Advances t n
  step-Advances (submitted c) n h = submit-Advances c n
  step-Advances snapshot_triggered n h = trigger_snapshot-Advances n

  -- Along any run of a node's steps in which no term reaches the largest 64-bit number, the term
  -- does not fall, a vote stands as long as its term does, and a disk that had both at the start
  -- has them at the end.
  pub run-Advances : (es : List Event) (n : Node S) → TermsFit M es n → Advances n (run M es n)
  unfolding run TermsFit
  run-Advances [] n h = Advances-refl n
  run-Advances (e ∷ es) n h =
      Advances-trans n (step M e n) _ (step-Advances e n h.0) (run-Advances es (step M e n) h.1)
