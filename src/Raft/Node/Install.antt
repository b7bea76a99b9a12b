-- ===== src/Raft/Node/Install.antt =====
-- `RaftNode::handle_install_snapshot`
use nebula_kv.Prelude.{Bool, true, false, ◌||◌, not, some, [], ltb, max, if◌then◌else◌}
use nebula_kv.Prelude.Result.{Result, ok}
use nebula_kv.Prelude.Exec.{Exec, resume}
use nebula_kv.Raft.Types.{
  InstallSnapshotRequest, InstallSnapshotResponse, Snapshot, StateMachine, next,
}
use nebula_kv.Raft.Node.Log.{snapshot_index}
use nebula_kv.Raft.Node.State.{Node, term_at, become_follower, persist_log, persist_hard_state}
use nebula_kv.Raft.Node.Commit.{term_is, is_covered, drop_through, save_snapshot}
use nebula_kv.Raft.Node.Append.{is_follower}

abbrev pub snapshot_of : InstallSnapshotRequest → Snapshot
snapshot_of r = record {
  last_included_index = r.last_included_index;
  last_included_term = r.last_included_term;
  payload = r.payload;
}

module _ {S : Type 0} where
  abbrev pub installed_reply : Bool → Node S → Result InstallSnapshotResponse × Node S
  installed_reply success n = (
    ok (record {
      term = n.hard_state.current_term;
      success = success;
      installed_index = snapshot_index n.snapshot;
    }),
    n,
  )

  abbrev pub accept_snapshot : InstallSnapshotRequest → Node S → Node S
  accept_snapshot r n0 =
      let n =
        if ltb n0.hard_state.current_term r.term || not (is_follower n0.role)
        then become_follower r.term r.leader_id n0
        else n0 in
      record n { leader_id = r.leader_id }

  -- The log behind the snapshot stays where it has the snapshot's last entry.
  unfoldable pub cut_log : InstallSnapshotRequest → Node S → Node S
  cut_log r n = record n {
    log =
        if term_is (term_at n r.last_included_index) r.last_included_term
        then drop_through r.last_included_index n.log
        else [];
  }

  abbrev pub adopt : Snapshot → Node S → Node S
  adopt s n = persist_log (record n { snapshot = some s })

  -- What follows the install into the state machine.
  abbrev pub settle : Snapshot → Node S → Node S
  settle s n0 =
      let n = persist_hard_state (record n0 {
        hard_state = record (n0.hard_state) {
          commit_index = max n0.hard_state.commit_index s.last_included_index;
          last_applied = max n0.hard_state.last_applied s.last_included_index;
        };
      }) in
      record n {
        metrics = record (n.metrics) { snapshots_installed = next n.metrics.snapshots_installed };
      }

module _ {S : Type 0} (M : StateMachine S) where
  abbrev pub into_machine : Snapshot → Exec (Node S) (Unit {0})
  into_machine s n =
      let (r, m) = M.install_snapshot s.payload n.machine in (r, record n { machine = m })

  unfoldable pub install : InstallSnapshotRequest → Exec (Node S) InstallSnapshotResponse
  unfolding cut_log save_snapshot
  install r n =
      let s = snapshot_of r in
      resume
        (λ _ n1. resume (λ _ n2. installed_reply true (settle s n2)) (into_machine s (adopt s n1)))
        (save_snapshot s (cut_log r n))

  unfoldable pub handle_install_snapshot :
      InstallSnapshotRequest → Exec (Node S) InstallSnapshotResponse
  unfolding install
  handle_install_snapshot r n0 =
      if ltb r.term n0.hard_state.current_term
      then installed_reply false n0
      else (let n = accept_snapshot r n0 in
          if is_covered n.snapshot r.last_included_index
          then installed_reply true n
          else install r n)
