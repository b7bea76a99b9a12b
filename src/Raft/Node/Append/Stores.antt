-- ===== src/Raft/Node/Append/Stores.antt =====
-- An accepted AppendEntries request stores its entries.
use nebula_kv.Prelude.{
  ◌+◌, ◌≤◌, ◌≡◌, ◌∙◌, ap, Bool, true, false, some, List, ◌++◌, arith, length, length-append,
  if◌then◌else◌,
}
use nebula_kv.Prelude.Result.{ok}
use nebula_kv.Raft.Types.{LogEntry, AppendEntriesRequest, StateMachine}
use nebula_kv.Raft.Node.Log.{snapshot_index, last_log_index}
use nebula_kv.Raft.Node.Log.Contiguous.{IsContiguous, last_log_index-IsContiguous, back_index-From}
use nebula_kv.Raft.Node.Log.Merge.{finished}
use nebula_kv.Raft.Node.Log.Agreement.{
  merge, differs, Fits, merge_loop-eq-merge, merge-IsContiguous, length-merge,
}
use nebula_kv.Raft.Node.State.{Node, term_at, become_follower, persist_log}
use nebula_kv.Raft.Node.Append.{
  count_append, accept_request, check_previous, consider, after_merge, handle_append_entries,
  success_reply,
}

-- A request that the node accepts: its term is not older, and the node's log has the entry before the
-- first one of the request, at the end of the part `xs`.
pub record Matches {S : Type 0} (r : AppendEntriesRequest) (n : Node S) (xs ys : List LogEntry)
    : Type 0 where
  pub term : n.hard_state.current_term ≤ r.term
  pub split : n.log ≡ xs ++ ys
  pub contiguous : IsContiguous n.snapshot n.log
  pub previous : r.previous_log_index ≡ snapshot_index n.snapshot + length xs
  pub previous_term : term_at n r.previous_log_index ≡ some r.previous_log_term
  pub entries : Fits n.snapshot (length xs) r.entries

module _ {S : Type 0} where
  -- The node with the entries of the request in its log.
  abbrev pub with_entries : AppendEntriesRequest → List LogEntry → List LogEntry → Node S → Node S
  with_entries r xs ys n = record (accept_request r (count_append n)) {
    log = xs ++ merge ys r.entries;
  }

  pub accept_keeps :
      (r : AppendEntriesRequest) (n : Node S)
      → let n' = accept_request r (count_append n) in
        (n'.log ≡ n.log)
        × (n'.snapshot ≡ n.snapshot)
        × (n'.hard_state.commit_index ≡ n.hard_state.commit_index)
        × (n'.disk.log ≡ n.disk.log)
  unfolding accept_request become_follower
  accept_keeps r n = ground arith

module _ {S : Type 0} (M : StateMachine S) where
  check_previous-merge :
      (r : AppendEntriesRequest) (n : Node S) (xs ys : List LogEntry)
      → n.log ≡ xs ++ ys
      → IsContiguous n.snapshot (xs ++ ys)
      → Fits n.snapshot (length xs) r.entries
      → r.previous_log_index ≡ snapshot_index n.snapshot + length xs
      → check_previous M r (some r.previous_log_term) n
        ≡ after_merge M r
            (finished (differs ys r.entries))
            (record n { log = xs ++ merge ys r.entries })
  unfolding check_previous
  check_previous-merge r n xs ys e c f p =
      let m =
        merge_loop-eq-merge n.snapshot r.previous_log_index 0 r.entries xs ys false c f
          (omega arith) in
      ground (arith, m)

  -- The handler up to the end of its loop: it goes on with the request's entries in the log.
  pub handle_append_entries-merge :
      (r : AppendEntriesRequest) (n : Node S) (xs ys : List LogEntry)
      → Matches r n xs ys
      → handle_append_entries M r n
        ≡ after_merge M r (finished (differs ys r.entries)) (with_entries r xs ys n)
  unfolding handle_append_entries consider
  handle_append_entries-merge r n xs ys m =
      let n' = accept_request r (count_append n) in
      let k = accept_keeps r n in
      let c : IsContiguous n'.snapshot (xs ++ ys) = rw (k.1, ← m.split) m.contiguous in
      let f : Fits n'.snapshot (length xs) r.entries = rw k.1 m.entries in
      let p : r.previous_log_index ≡ snapshot_index n'.snapshot + length xs = rw k.1 m.previous in
      let t : term_at n' r.previous_log_index ≡ some r.previous_log_term =
        rw (k.0, k.1) m.previous_term in
      let e = check_previous-merge r n' xs ys (k.0 ∙ m.split) c f p in
      ground (arith, m.term, t, e, p)

  accept_term :
      (r : AppendEntriesRequest) (n : Node S)
      → n.hard_state.current_term ≤ r.term
      → (accept_request r (count_append n)).hard_state.current_term ≡ r.term
  unfolding accept_request become_follower
  accept_term r n h = ground arith

  after_merge-low :
      (r : AppendEntriesRequest) (d : Bool) (n : Node S)
      → r.leader_commit ≤ n.hard_state.commit_index
      → after_merge M r (finished d) n ≡ success_reply r (if d then persist_log n else n)
  unfolding after_merge
  after_merge-low r true n h = ground arith
  after_merge-low r false n h = ground arith

  -- An AppendEntries request that is accepted, and that commits nothing, keeps the log up to the
  -- request's previous entry and merges what follows with the request's entries: entries that the
  -- request repeats stay, with a longer tail of the log behind them; from the first entry of
  -- another term, or the end of the log, on stand the request's entries alone; in memory and, if
  -- something changed, on disk; the answer has the index of the request's last entry.
  pub handle_append_entries-Matches :
      (r : AppendEntriesRequest) (n : Node S) (xs ys : List LogEntry)
      → Matches r n xs ys
      → r.leader_commit ≤ n.hard_state.commit_index
      → let x = handle_append_entries M r n in
        (x.0
          ≡ ok (record {
            term = r.term;
            success = true;
            match_index = r.previous_log_index + length r.entries;
            conflict_index = 0;
          }))
        × (x.1.log ≡ xs ++ merge ys r.entries)
        × (x.1.disk.log ≡ (if differs ys r.entries then xs ++ merge ys r.entries else n.disk.log))
        × IsContiguous x.1.snapshot x.1.log
  handle_append_entries-Matches r n xs ys m low =
      let k = accept_keeps r n in
      let c =
        merge-IsContiguous n.snapshot xs ys r.entries (rw (← m.split) m.contiguous) m.entries in
      let l = last_log_index-IsContiguous n.snapshot (xs ++ merge ys r.entries) c in
      let b =
        back_index-From _ r.previous_log_index r.entries m.entries.follows
          (omega (arith, m.previous)) in
      let snapshot_same = ap (λ s. last_log_index s (xs ++ merge ys r.entries)) k.1 in
      let a =
        after_merge-low r (differs ys r.entries) (with_entries r xs ys n)
          (omega (arith, k.2, low)) in
      rw (handle_append_entries-merge r n xs ys m, a)
        (
          ground (
            arith,
            m.previous,
            accept_term r n m.term,
            k,
            l,
            b,
            length-append xs (merge ys r.entries),
            length-merge ys r.entries,
            snapshot_same,
          ),
          ground arith,
          ground (arith, k),
          ground (arith, c, k),
        )
