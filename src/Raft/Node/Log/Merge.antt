-- ===== src/Raft/Node/Log/Merge.antt =====
-- The loop of `RaftNode::handle_append_entries` over the entries of a request, on the fields
-- `snapshot_` and `log_`.
use nebula_kv.Prelude.{
  ℕ, ◌+◌, ◌%◌, Bool, true, false, ◌||◌, not, Option, none, some, List, [], ◌∷◌, leb, ◌==◌,
  if◌then◌else◌,
}
use nebula_kv.Prelude.Result.{Result, ok, throw}
use nebula_kv.Prelude.Exec.{Exec}
use nebula_kv.Raft.Types.{LogEntry, Snapshot, word}
use nebula_kv.Raft.Node.Log.{snapshot_index, term_at, truncate_log_from, append_entries}

-- How the loop over the entries ends: by the early return, or with the flag `log_changed`.
pub data LoopEnd : Type 0 where
  bad_index : LoopEnd
  finished : Bool → LoopEnd

abbrev pub is_known : Option ℕ → Bool
is_known none = false
is_known (some _) = true

-- `existing_term && *existing_term != incoming.term`
abbrev pub clashes : Option ℕ → ℕ → Bool
clashes none t = false
clashes (some u) t = not (u == t)

abbrev pub appended : Result (Unit {0}) × List LogEntry → Result LoopEnd × List LogEntry
appended (ok _, log) = (ok (finished true), log)
appended (throw x, log) = (throw x, log)

abbrev pub truncated : Option Snapshot → LogEntry → List LogEntry → List LogEntry
truncated s e log =
    if clashes (term_at s log e.index) e.term then truncate_log_from s log e.index else log

unfoldable pub merge_loop :
    Option Snapshot → ℕ → ℕ → List LogEntry → Bool → Exec (List LogEntry) LoopEnd
merge_loop s prev position [] changed log = (ok (finished changed), log)
merge_loop s prev position (e ∷ es) changed log =
    let log' = truncated s e log in
    let skip = merge_loop s prev (position + 1) es changed log in
    let again =
      merge_loop s prev (position + 1) es (changed || clashes (term_at s log e.index) e.term)
        log' in
    if not (e.index == (prev + position + 1) % word)
    then (ok bad_index, log)
    else if leb e.index (snapshot_index s)
    then skip
    else if is_known (term_at s log' e.index)
    then again
    else appended (append_entries s (e ∷ es) log')
