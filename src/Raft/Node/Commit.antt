-- ===== src/Raft/Node/Commit.antt =====
-- `apply_committed_locked`, `maybe_create_snapshot_locked` and `advance_commit_locked`, with
-- `RaftStorage::save_snapshot`.
pub mod Frame
pub mod Applied
pub mod Compaction
pub mod Committed
pub mod Quorum
mod Tests
use nebula_kv.Prelude.{
  ℕ, zero, suc, ◌+◌, ◌-◌, ◌%◌, ◌^◌, Bytes, Bool, true, false, ◌||◌, Option, none, some, List, [],
  ◌∷◌, ltb, leb, ◌==◌, length, get_elem?, if◌then◌else◌,
}
use nebula_kv.Prelude.Result.{Result, ok, throw, runtime_error, invalid_argument, length_error}
use nebula_kv.Prelude.Exec.{Exec, resume}
use nebula_kv.Prelude.OrderedMap.{OrderedMap, find}
use nebula_kv.Raft.Types.{Peer, LogEntry, CommandType, noop, Snapshot, StateMachine, word, next}
use nebula_kv.Raft.Node.Log.{snapshot_index, first_index}
use nebula_kv.Raft.Node.State.{Node, last_log_index, term_at, persist_log, quorum_size}

-- `std::upper_bound` by index and `erase`: in an ordered log the entries up to the index go.
unfoldable pub drop_through : ℕ → List LogEntry → List LogEntry
drop_through index [] = []
drop_through index (e ∷ es) =
    let rest = drop_through index es in if ltb index e.index then e ∷ es else rest

-- `snapshot_ && index <= snapshot_->last_included_index`
abbrev pub is_covered : Option Snapshot → ℕ → Bool
is_covered none index = false
is_covered (some s) index = leb index s.last_included_index

abbrev is_noop : CommandType → Bool
is_noop noop = true
is_noop _ = false

-- `std::sort`
unfoldable pub sort_insert : ℕ → List ℕ → List ℕ
sort_insert x [] = x ∷ []
sort_insert x (y ∷ ys) = if leb x y then x ∷ y ∷ ys else y ∷ sort_insert x ys

unfoldable pub sort : List ℕ → List ℕ
unfolding sort_insert
sort [] = []
sort (x ∷ xs) = sort_insert x (sort xs)

abbrev pub match_of : Option ℕ → ℕ
match_of none = 0
match_of (some i) = i

abbrev pub matches : OrderedMap ℕ → List Peer → List ℕ
matches m [] = []
matches m (p ∷ ps) = match_of (find p.id m) ∷ matches m ps

-- `term && *term == t`
abbrev pub term_is : Option ℕ → ℕ → Bool
term_is none t = false
term_is (some u) t = u == t

module _ {S : Type 0} where
  abbrev pub set_last_applied : ℕ → Node S → Node S
  set_last_applied index n = record n {
    hard_state = record (n.hard_state) { last_applied = index };
  }

  abbrev pub set_commit_index : ℕ → Node S → Node S
  set_commit_index index n = record n {
    hard_state = record (n.hard_state) { commit_index = index };
  }

  unfoldable pub save_snapshot : Snapshot → Exec (Node S) (Unit {0})
  save_snapshot s n =
      if s.last_included_index == 0
      then (throw invalid_argument, n)
      else if ltb (2 ^ 32 - 1) (length s.payload)
      then (throw length_error, n)
      else (ok tt, record n { disk = record (n.disk) { snapshot = some s } })

  -- The index of the log that a quorum has stored.
  unfoldable pub replicated : Node S → List ℕ
  replicated n = last_log_index n ∷ matches n.match_index n.options.peers

  unfoldable pub commit_candidate : Node S → Option ℕ
  unfolding sort replicated
  commit_candidate n = get_elem? (sort (replicated n)) (length (replicated n) - quorum_size n)

  advance_to : Option ℕ → Node S → Bool × Node S
  advance_to none n = (false, n)
  advance_to (some c) n =
      if leb c n.hard_state.commit_index
      then (false, n)
      else if term_is (term_at n c) n.hard_state.current_term
      then (true, set_commit_index c n)
      else (false, n)

  unfoldable pub advance_commit : Node S → Bool × Node S
  unfolding advance_to
  advance_commit n = advance_to (commit_candidate n) n

module _ {S : Type 0} (M : StateMachine S) where
  abbrev count_command : LogEntry → Node S → Node S
  count_command e n = record n {
    metrics = record (n.metrics) {
      committed_commands =
          if is_noop e.command.type
          then n.metrics.committed_commands
          else next n.metrics.committed_commands;
    };
  }

  abbrev applied : LogEntry → ℕ → Node S → Result (Unit {0}) × S → Result (Unit {0}) × Node S
  applied e index n (ok _, m) =
      (ok tt, count_command e (set_last_applied index (record n { machine = m })))
  applied e index n (throw x, m) = (throw x, record n { machine = m })

  unfoldable pub apply_entry : Option LogEntry → ℕ → Exec (Node S) (Unit {0})
  apply_entry none index n = (throw runtime_error, n)
  apply_entry (some e) index n = applied e index n (M.apply e n.machine)

  -- One round of the loop.
  unfoldable pub apply_next : Exec (Node S) (Unit {0})
  unfolding apply_entry
  apply_next n =
      let index = next n.hard_state.last_applied in
      if is_covered n.snapshot index
      then (ok tt, set_last_applied (snapshot_index n.snapshot) n)
      else if ltb index (first_index n.snapshot)
      then (throw runtime_error, n)
      else apply_entry (get_elem? n.log (index - first_index n.snapshot)) index n

  unfoldable pub apply_loop : ℕ → Exec (Node S) (Unit {0})
  unfolding apply_next
  apply_loop zero n = (ok tt, n)
  apply_loop (suc fuel) n = elim (ltb n.hard_state.last_applied n.hard_state.commit_index) [
    | true ↦ resume (λ _. apply_loop fuel) (apply_next n)
    | false ↦ (ok tt, n)
  ]

  abbrev install_created : Snapshot → Node S → Node S
  install_created s n0 =
      let n = record n0 { snapshot = some s; log = drop_through s.last_included_index n0.log } in
      record (persist_log n) {
        metrics = record (n.metrics) { snapshots_created = next n.metrics.snapshots_created };
      }

  abbrev pub save_created : ℕ → Result Bytes → Exec (Node S) (Unit {0})
  save_created term (throw x) n = (throw x, n)
  save_created term (ok payload) n =
      let s : Snapshot = record {
        last_included_index = n.hard_state.last_applied;
        last_included_term = term;
        payload = payload;
      } in
      resume (λ _ n'. (ok tt, install_created s n')) (save_snapshot s n)

  unfoldable pub create_snapshot_at : Option ℕ → Exec (Node S) (Unit {0})
  unfolding save_snapshot
  create_snapshot_at none n = (throw runtime_error, n)
  create_snapshot_at (some term) n = save_created term (M.create_snapshot n.machine) n

  unfoldable pub maybe_create_snapshot : Exec (Node S) (Unit {0})
  unfolding create_snapshot_at
  maybe_create_snapshot n =
      if n.options.snapshot_threshold_entries == 0 || n.hard_state.last_applied == 0
      then (ok tt, n)
      else if ltb ((n.hard_state.last_applied + word - snapshot_index n.snapshot) % word)
          n.options.snapshot_threshold_entries
      then (ok tt, n)
      else create_snapshot_at (term_at n n.hard_state.last_applied) n

  -- Each round raises `last_applied`, so the gap to the commit index is fuel enough.
  unfoldable pub apply_committed : Exec (Node S) (Unit {0})
  unfolding apply_loop maybe_create_snapshot
  apply_committed n =
      resume (λ _. maybe_create_snapshot)
        (apply_loop (n.hard_state.commit_index - n.hard_state.last_applied) n)
