-- ===== src/Raft/Node/Submit.antt =====
-- `RaftNode::submit` up to the wait for a quorum, `valid_client_command`, and `trigger_snapshot`.
use nebula_kv.Prelude.{ℕ, Bool, true, false, not, Bytes, [], ◌∷◌, ◌==◌, if◌then◌else◌}
use nebula_kv.Prelude.Result.{Result, ok, throw, invalid_argument, ◌>>◌}
use nebula_kv.Prelude.Exec.{Exec, resume}
use nebula_kv.Storage.Validation.{validate_key, validate_value}
use nebula_kv.Raft.Types.{Command, CommandType, noop, put, LogEntry, NodeId, StateMachine}
use nebula_kv.Raft.Node.State.{Node, persist_log, quorum_size}
use nebula_kv.Raft.Node.Commit.{maybe_create_snapshot}
use nebula_kv.Raft.Node.Election.{is_leader, append_local_entry, commit_alone}

abbrev check_value : CommandType → Bytes → Result (Unit {0})
check_value put value = validate_value value
check_value _ [] = ok tt
check_value _ (b ∷ bs) = throw invalid_argument

unfoldable pub valid_client_command : Command → Result Bool
valid_client_command c = elim c.type [
  | noop ↦ ok false
  | _ ↦ do validate_key c.key; check_value c.type c.value; ok true
]

-- How `submit` goes on once its entry is in the log.
pub data Submission : Type 0 where
  invalid_command : Submission
  not_leader : ℕ → NodeId → Submission
  committed : ℕ → ℕ → Submission
  waiting : ℕ → ℕ → Submission

module _ {S : Type 0} (M : StateMachine S) where
  unfoldable pub replicate_entry : LogEntry → Exec (Node S) Submission
  replicate_entry e n0 =
      let n = persist_log n0 in
      if quorum_size n == 1
      then resume (λ _ n'. (ok (committed e.index e.term), n')) (commit_alone M e.index n)
      else (ok (waiting e.index e.term), n)

  abbrev pub checked : Command → Result Bool → Exec (Node S) Submission
  checked c (throw e) n = (ok invalid_command, n)
  checked c (ok _) n =
      if not (is_leader n.role)
      then (ok (not_leader n.hard_state.current_term n.leader_id), n)
      else resume (replicate_entry) (append_local_entry c n)

  unfoldable pub submit : Command → Exec (Node S) Submission
  unfolding replicate_entry
  submit c n = checked c (valid_client_command c) n

  abbrev pub with_threshold : ℕ → Node S → Node S
  with_threshold t n = record n { options = record (n.options) { snapshot_threshold_entries = t } }

  unfoldable pub trigger_snapshot : Exec (Node S) (Unit {0})
  trigger_snapshot n =
      if n.hard_state.last_applied == 0
      then (ok tt, n)
      else resume (λ _ n'. (ok tt, with_threshold n.options.snapshot_threshold_entries n'))
          (maybe_create_snapshot M (with_threshold 1 n))
