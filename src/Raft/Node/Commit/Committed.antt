-- ===== src/Raft/Node/Commit/Committed.antt =====
-- `apply_committed_locked` as a whole: the loop, and the snapshot behind it.
use nebula_kv.Prelude.{ℕ, ◌-◌, ◌≡◌, refl, sym, ◌∙◌, ap, arith, ◌⊎◌, inl, inr, some}
use nebula_kv.Prelude.Result.{Result, ok, throw, Exception}
use nebula_kv.Prelude.Exec.{resume}
use nebula_kv.Raft.Types.{StateMachine}
use nebula_kv.Raft.Node.Log.{last_log_index}
use nebula_kv.Raft.Node.Log.Contiguous.{IsContiguous}
use nebula_kv.Raft.Node.State.{Node}
use nebula_kv.Raft.Node.Commit.{apply_loop, maybe_create_snapshot, apply_committed}
use nebula_kv.Raft.Node.Commit.Frame.{SameLog, SameRole, apply_loop-SameLog, apply_loop-SameRole}
use nebula_kv.Raft.Node.Commit.Applied.{IsReady, Applies, replay, pending, apply_loop-Applies}
use nebula_kv.Raft.Node.Commit.Compaction.{Snapshots, refusal, maybe_create_snapshot-Snapshots}

module _ {S : Type 0} (M : StateMachine S) where
  -- A node that has applied everything is still ready.
  caught_up-IsReady :
      (n n' : Node S)
      → IsReady n
      → SameLog n n'
      → SameRole n n'
      → n'.hard_state.last_applied ≡ n.hard_state.commit_index
      → IsReady n'
  caught_up-IsReady n n' r l s e = record {
    contiguous = rw (l.log, l.snapshot) r.contiguous;
    above = rw (l.snapshot, e) (omega (arith, r.above, r.applied));
    applied = omega (arith, e, s.commit);
    stored = rw (l.snapshot, l.log, s.commit) r.stored;
  }

  -- The node `x` has done to its machine what the calls alone did in `y`, has applied everything up to
  -- `commit` unless a call threw, and its outcome is that of the calls, or, behind calls that all
  -- returned, what creating a snapshot of the machine throws.
  pub record AppliesAll (commit : ℕ) (x : Result (Unit {0}) × Node S) (y : Result (Unit {0}) × S)
      : Type 0 where
    pub outcome :
        (x.0 ≡ y.0)
        ⊎ ((y.0 ≡ ok tt)
            × ((e : Exception) × (x.0 ≡ throw e) × (refusal M (M.create_snapshot y.1) ≡ some e)))
    pub machine : x.1.machine ≡ y.1
    pub reached : y.0 ≡ ok tt → x.1.hard_state.last_applied ≡ commit

  then_snapshot :
      (n n' : Node S) (x : Result (Unit {0}) × Node S) (y : Result (Unit {0}) × S)
      → IsReady n'
      → last_log_index n'.snapshot n'.log ≡ last_log_index n.snapshot n.log
      → Applies n.hard_state.commit_index (ok tt, n') y
      → Snapshots M n' x
      → AppliesAll n.hard_state.commit_index x y
        × IsContiguous x.1.snapshot x.1.log
        × (last_log_index x.1.snapshot x.1.log ≡ last_log_index n.snapshot n.log)
  then_snapshot n n' x y r l a (inl (p, c)) = (
    record {
      outcome = inl (p ∙ a.outcome);
      machine = c.machine ∙ a.machine;
      reached = λ q. ap (λ h. h.last_applied) c.hard_state ∙ a.reached q;
    },
    c.contiguous,
    c.last ∙ l,
  )
  then_snapshot n n' x y r l a (inr (e, p, q)) = (
    record {
      outcome = inr (sym a.outcome, (e, ap (λ z. z.0) p, rw (← a.machine) q));
      machine = ap (λ z. z.1.machine) p ∙ a.machine;
      reached = λ z. ap (λ w. w.1.hard_state.last_applied) p ∙ a.reached z;
    },
    rw p r.contiguous,
    rw p l,
  )

  after_loop :
      (n : Node S) (x : Result (Unit {0}) × Node S) (y : Result (Unit {0}) × S)
      → IsReady n
      → SameLog n x.1
      → SameRole n x.1
      → Applies n.hard_state.commit_index x y
      → let z = resume (λ _. maybe_create_snapshot M) x in
        AppliesAll n.hard_state.commit_index z y
        × IsContiguous z.1.snapshot z.1.log
        × (last_log_index z.1.snapshot z.1.log ≡ last_log_index n.snapshot n.log)
  after_loop n (throw e, n') y r l s a = (
    record { outcome = inl a.outcome; machine = a.machine; reached = a.reached },
    rw (l.log, l.snapshot) r.contiguous,
    rw (l.log, l.snapshot) refl,
  )
  after_loop n (ok u, n') y r l s a =
      let r' = caught_up-IsReady n n' r l s (a.reached (sym a.outcome)) in
      then_snapshot n n' _ y r' (rw (l.log, l.snapshot) refl) a
        (maybe_create_snapshot-Snapshots M n' r')

  -- On a node whose log has every committed entry that is not applied yet, applying the committed
  -- entries leaves the state machine as the calls for those entries alone would, in order and each
  -- once; the outcome is that of those calls, or, if all of them returned, may be the exception of
  -- creating a snapshot behind them; if none of the calls threw, last_applied has reached the
  -- commit index; and the log has no gaps and ends where it did.
  pub apply_committed-Applies :
      (n : Node S)
      → IsReady n
      → let x = apply_committed M n in
        AppliesAll n.hard_state.commit_index x (replay M (pending n) n.machine)
        × IsContiguous x.1.snapshot x.1.log
        × (last_log_index x.1.snapshot x.1.log ≡ last_log_index n.snapshot n.log)
  unfolding apply_committed
  apply_committed-Applies n r =
      let fuel = n.hard_state.commit_index - n.hard_state.last_applied in
      after_loop n (apply_loop M fuel n) (replay M (pending n) n.machine) r
        (apply_loop-SameLog M fuel n) (apply_loop-SameRole M fuel n)
        (apply_loop-Applies M fuel n r (omega (arith, r.applied)))
