-- ===== src/Raft/Node/Commit/Applied.antt =====
-- What `apply_committed_locked` does to the state machine: it applies the entries between
-- `last_applied` and the commit index, each once and in order.
use nebula_kv.Prelude.{
  ℕ, zero, suc, ◌+◌, ◌-◌, ◌≤◌, ◌<◌, ◌≡◌, refl, some, List, [], ◌∷◌, arith, lt→ltb, length,
  get_elem?, take, drop, drop-get_elem?,
}
use nebula_kv.Prelude.Result.{Result, ok, throw}
use nebula_kv.Prelude.Exec.{Exec, resume}
use nebula_kv.Raft.Types.{LogEntry, StateMachine}
use nebula_kv.Raft.Node.Log.{snapshot_index}
use nebula_kv.Raft.Node.Log.Contiguous.{IsContiguous, first_index-IsContiguous}
use nebula_kv.Raft.Node.State.{Node}
use nebula_kv.Raft.Node.Commit.{applied, apply_entry, apply_next, apply_loop}

-- A node whose log has every committed entry that is not applied yet.
pub record IsReady {S : Type 0} (n : Node S) : Type 0 where
  pub contiguous : IsContiguous n.snapshot n.log
  pub above : snapshot_index n.snapshot ≤ n.hard_state.last_applied
  pub applied : n.hard_state.last_applied ≤ n.hard_state.commit_index
  pub stored : n.hard_state.commit_index ≤ snapshot_index n.snapshot + length n.log

module _ {S : Type 0} where
  -- The calls of the state machine alone.
  unfoldable pub replay : StateMachine S → List LogEntry → Exec S (Unit {0})
  replay M [] m = (ok tt, m)
  replay M (e ∷ es) m = resume (λ _. replay M es) (M.apply e m)

  abbrev pub pending : Node S → List LogEntry
  pending n =
      take (n.hard_state.commit_index - n.hard_state.last_applied)
        (drop (n.hard_state.last_applied - snapshot_index n.snapshot) n.log)

-- The node `x` has done to its machine what the calls alone did in `y`, with the same outcome, and has
-- applied everything up to `commit` unless a call threw.
pub record Applies {S : Type 0} (commit : ℕ) (x : Result (Unit {0}) × Node S)
    (y : Result (Unit {0}) × S) : Type 0 where
  pub outcome : x.0 ≡ y.0
  pub machine : x.1.machine ≡ y.1
  pub reached : y.0 ≡ ok tt → x.1.hard_state.last_applied ≡ commit

module _ {S : Type 0} (M : StateMachine S) where
  -- One entry, and the loop behind it.
  applied-Applies :
      (e : LogEntry) (es : List LogEntry) (i commit fuel : ℕ) (n : Node S)
      (x : Result (Unit {0}) × S)
      → ((m : S)
          → Applies commit (apply_loop M fuel (applied M e i n (ok tt, m)).1) (replay M es m))
      → Applies commit
          (resume (λ _. apply_loop M fuel) (applied M e i n x))
          (resume (λ _. replay M es) x)
  applied-Applies e es i commit fuel n (ok _, m) h = h m
  applied-Applies e es i commit fuel n (throw t, m) h = record {
    outcome = refl;
    machine = refl;
    reached = λ p. cc;
  }

  -- On a ready node a round applies the next entry.
  apply_next-IsReady :
      (n : Node S)
      → IsReady n
      → n.hard_state.last_applied < n.hard_state.commit_index
      → apply_next M n
        ≡ apply_entry M
            (get_elem? n.log (n.hard_state.last_applied - snapshot_index n.snapshot))
            (n.hard_state.last_applied + 1)
            n
  unfolding apply_next
  apply_next-IsReady n r h =
      let f = first_index-IsContiguous n.snapshot n.log r.contiguous in
      ground (arith, f, r.above, r.stored, r.contiguous.fits)

  sub_suc :
      (n : Node S)
      → IsReady n
      → n.hard_state.last_applied + 1 - snapshot_index n.snapshot
        ≡ suc (n.hard_state.last_applied - snapshot_index n.snapshot)
  sub_suc n r = omega (arith, r.above)

  pub apply_loop-Applies :
      (fuel : ℕ) (n : Node S)
      → IsReady n
      → n.hard_state.last_applied + fuel ≡ n.hard_state.commit_index
      → Applies n.hard_state.commit_index (apply_loop M fuel n) (
          replay M
            (take fuel (drop (n.hard_state.last_applied - snapshot_index n.snapshot) n.log))
            n.machine)
  unfolding apply_loop replay apply_entry
  apply_loop-Applies zero n r h = record {
    outcome = refl;
    machine = refl;
    reached = λ p. omega (arith, h);
  }
  apply_loop-Applies (suc fuel) n r h =
      let d = n.hard_state.last_applied - snapshot_index n.snapshot in
      let (e, p, q) = drop-get_elem? n.log d (omega (arith, r.above, r.stored)) in
      let a = apply_next-IsReady n r (omega (arith, h)) in
      let go : Applies n.hard_state.commit_index
          (resume (λ _. apply_loop M fuel)
            (apply_entry M (some e) (n.hard_state.last_applied + 1) n))
          (resume (λ _. replay M (take fuel (drop (suc d) n.log))) (M.apply e n.machine)) =
        applied-Applies e (take fuel (drop (suc d) n.log)) (n.hard_state.last_applied + 1)
          n.hard_state.commit_index fuel n (M.apply e n.machine)
          λ m.
            let n' = (applied M e (n.hard_state.last_applied + 1) n (ok tt, m)).1 in
            let r' : IsReady n' = record {
              contiguous = r.contiguous;
              above = omega (arith, r.above);
              applied = omega (arith, h);
              stored = r.stored;
            } in
            let ih = apply_loop-Applies fuel n' r' (omega (arith, h)) in rw (← sub_suc n r) ih in
      rw
        (
          lt→ltb n.hard_state.last_applied n.hard_state.commit_index (omega (arith, h)),
          apply_loop,
          a,
          p,
          q,
          replay,
        )
        go
