-- ===== src/Raft/Node/Commit/Frame.antt =====
-- What applying committed entries and taking a snapshot leave alone.
use nebula_kv.Prelude.{
  ℕ, zero, suc, Bytes, ◌-◌, ◌≡◌, refl, ◌∙◌, true, Option, none, some, arith, ltb, get_elem?,
  Bool-cases, inl, inr,
}
use nebula_kv.Prelude.Result.{Result, ok, throw}
use nebula_kv.Prelude.Exec.{Exec, resume}
use nebula_kv.Raft.Types.{LogEntry, StateMachine, next}
use nebula_kv.Raft.Node.Log.{first_index}
use nebula_kv.Raft.Node.State.{Node, term_at}
use nebula_kv.Raft.Node.Commit.{
  apply_entry, apply_next, apply_loop, save_created, save_snapshot, create_snapshot_at,
  maybe_create_snapshot, apply_committed,
}

-- `n` differs from `m` in the machine, `last_applied`, the metrics and the snapshot with its log only.
pub record SameRole {S : Type 0} (m n : Node S) : Type 0 where
  pub options : n.options ≡ m.options
  pub role : n.role ≡ m.role
  pub leader_id : n.leader_id ≡ m.leader_id
  pub term : n.hard_state.current_term ≡ m.hard_state.current_term
  pub vote : n.hard_state.voted_for ≡ m.hard_state.voted_for
  pub commit : n.hard_state.commit_index ≡ m.hard_state.commit_index
  pub disk : n.disk.hard_state ≡ m.disk.hard_state

-- `n` has the log, the snapshot and the stored files of `m` too.
pub record SameLog {S : Type 0} (m n : Node S) : Type 0 where
  pub log : n.log ≡ m.log
  pub snapshot : n.snapshot ≡ m.snapshot
  pub stored : n.disk ≡ m.disk

module _ {S : Type 0} where
  pub SameRole-refl : (n : Node S) → SameRole n n
  SameRole-refl n = record {
    options = refl;
    role = refl;
    leader_id = refl;
    term = refl;
    vote = refl;
    commit = refl;
    disk = refl;
  }

  pub SameRole-trans : (a b c : Node S) → SameRole a b → SameRole b c → SameRole a c
  SameRole-trans a b c p q = record {
    options = q.options ∙ p.options;
    role = q.role ∙ p.role;
    leader_id = q.leader_id ∙ p.leader_id;
    term = q.term ∙ p.term;
    vote = q.vote ∙ p.vote;
    commit = q.commit ∙ p.commit;
    disk = q.disk ∙ p.disk;
  }

module _ {S : Type 0} (M : StateMachine S) where
  apply_entry-SameRole :
      (o : Option LogEntry) (i : ℕ) (n : Node S) → SameRole n (apply_entry M o i n).1
  unfolding apply_entry
  apply_entry-SameRole none i n = SameRole-refl n
  apply_entry-SameRole (some e) i n = ground arith

  apply_entry-SameLog :
      (o : Option LogEntry) (i : ℕ) (n : Node S) → SameLog n (apply_entry M o i n).1
  unfolding apply_entry
  apply_entry-SameLog none i n = record { log = refl; snapshot = refl; stored = refl }
  apply_entry-SameLog (some e) i n = ground arith

  apply_next-SameRole : (n : Node S) → SameRole n (apply_next M n).1
  unfolding apply_next
  apply_next-SameRole n = ground (
    arith,
    apply_entry-SameRole (get_elem? n.log (next n.hard_state.last_applied - first_index n.snapshot))
        (next n.hard_state.last_applied) n,
  )

  apply_next-SameLog : (n : Node S) → SameLog n (apply_next M n).1
  unfolding apply_next
  apply_next-SameLog n = ground (
    arith,
    apply_entry-SameLog (get_elem? n.log (next n.hard_state.last_applied - first_index n.snapshot))
        (next n.hard_state.last_applied) n,
  )

-- A relation that every round keeps holds between the ends of the loop.
module _ {S : Type 0} (M : StateMachine S) (R : Node S → Node S → Type 0)
    (here : (n : Node S) → R n n) (chain : (a b c : Node S) → R a b → R b c → R a c) where
  resume_rule :
      (n : Node S) (rest : Exec (Node S) (Unit {0})) (x : Result (Unit {0}) × Node S)
      → R n x.1
      → ((m : Node S) → R m (rest m).1)
      → R n (resume (λ _. rest) x).1
  resume_rule n rest (ok _, m) r k = chain n m _ r (k m)
  resume_rule n rest (throw e, m) r k = r

  pub loop_rule :
      ((n : Node S)
        → ltb n.hard_state.last_applied n.hard_state.commit_index ≡ true
        → R n (apply_next M n).1)
      → (fuel : ℕ) (n : Node S) → R n (apply_loop M fuel n).1
  unfolding apply_loop
  loop_rule step zero n = here n
  loop_rule step (suc fuel) n =
      elim (Bool-cases (ltb n.hard_state.last_applied n.hard_state.commit_index)) [
        | inl p ↦
            rw (p, apply_loop)
              (resume_rule n (apply_loop M fuel) (apply_next M n) (step n p) (loop_rule step fuel))
        | inr p ↦ rw (p, apply_loop) (here n)
      ]

module _ {S : Type 0} (M : StateMachine S) where
  pub apply_loop-SameRole : (fuel : ℕ) (n : Node S) → SameRole n (apply_loop M fuel n).1
  apply_loop-SameRole =
      loop_rule M SameRole SameRole-refl SameRole-trans (λ n _. apply_next-SameRole M n)

  pub apply_loop-SameLog : (fuel : ℕ) (n : Node S) → SameLog n (apply_loop M fuel n).1
  apply_loop-SameLog =
      loop_rule M SameLog (λ n. record { log = refl; snapshot = refl; stored = refl })
        (λ a b c p q. record {
          log = q.log ∙ p.log;
          snapshot = q.snapshot ∙ p.snapshot;
          stored = q.stored ∙ p.stored;
        })
        (λ n _. apply_next-SameLog M n)

  save_created-SameRole :
      (t : ℕ) (payload : Result Bytes) (n : Node S) → SameRole n (save_created M t payload n).1
  unfolding save_snapshot
  save_created-SameRole t (throw x) n = SameRole-refl n
  save_created-SameRole t (ok payload) n = ground arith

  create_snapshot_at-SameRole :
      (o : Option ℕ) (n : Node S) → SameRole n (create_snapshot_at M o n).1
  unfolding create_snapshot_at
  create_snapshot_at-SameRole none n = SameRole-refl n
  create_snapshot_at-SameRole (some t) n = save_created-SameRole t (M.create_snapshot n.machine) n

  pub maybe_create_snapshot-SameRole : (n : Node S) → SameRole n (maybe_create_snapshot M n).1
  unfolding maybe_create_snapshot
  maybe_create_snapshot-SameRole n =
      ground (arith, create_snapshot_at-SameRole (term_at n n.hard_state.last_applied) n)

  pub apply_committed-SameRole : (n : Node S) → SameRole n (apply_committed M n).1
  unfolding apply_committed
  apply_committed-SameRole n =
      resume_rule M SameRole SameRole-refl SameRole-trans n (maybe_create_snapshot M) _
        (apply_loop-SameRole (n.hard_state.commit_index - n.hard_state.last_applied) n)
        maybe_create_snapshot-SameRole
