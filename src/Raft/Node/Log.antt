-- ===== src/Raft/Node/Log.antt =====
-- The log of a node behind its snapshot: the accessors of src/raft/node.cpp from
-- `last_log_index_locked` to `append_entries_locked`, over the fields `snapshot_` and `log_`.
pub mod Contiguous
pub mod Merge
pub mod Agreement
use nebula_kv.Prelude.{
  ℕ, ◌-◌, Bool, true, false, ◌||◌, Option, none, some, List, [], ◌∷◌, ◌++◌, ltb, leb, ◌==◌, not,
  length, get_elem?, take, drop, min, if◌then◌else◌,
}
use nebula_kv.Prelude.Result.{ok, throw, runtime_error}
use nebula_kv.Prelude.Exec.{Exec}
use nebula_kv.Raft.Types.{LogEntry, Snapshot, next}

-- `snapshot_ ? snapshot_->last_included_index : 0U`
abbrev pub snapshot_index : Option Snapshot → ℕ
snapshot_index none = 0
snapshot_index (some s) = s.last_included_index

abbrev pub snapshot_term : Option Snapshot → ℕ
snapshot_term none = 0
snapshot_term (some s) = s.last_included_term

-- `snapshot_ ? snapshot_->last_included_index + 1U : 1U`
abbrev pub first_index : Option Snapshot → ℕ
first_index none = 1
first_index (some s) = next s.last_included_index

-- `log_.back().index`, or the default where the log is empty
abbrev pub back_index : ℕ → List LogEntry → ℕ
back_index d [] = d
back_index d (e ∷ es) = back_index e.index es

abbrev pub back_term : ℕ → List LogEntry → ℕ
back_term d [] = d
back_term d (e ∷ es) = back_term e.term es

unfoldable pub last_log_index : Option Snapshot → List LogEntry → ℕ
last_log_index s log = back_index (snapshot_index s) log

unfoldable pub last_log_term : Option Snapshot → List LogEntry → ℕ
last_log_term s log = back_term (snapshot_term s) log

abbrev pub entry_term : Option LogEntry → Option ℕ
entry_term none = none
entry_term (some e) = some e.term

abbrev pub is_snapshot_index : Option Snapshot → ℕ → Bool
is_snapshot_index none index = false
is_snapshot_index (some s) index = index == s.last_included_index

-- An offset past the end of `log_` reads as `none`, as the last test of the source does.
unfoldable pub term_at : Option Snapshot → List LogEntry → ℕ → Option ℕ
unfolding last_log_index
term_at s log index =
    if index == 0
    then some 0
    else if is_snapshot_index s index
    then some (snapshot_term s)
    else if ltb index (first_index s) || ltb (last_log_index s log) index
    then none
    else entry_term (get_elem? log (index - first_index s))

unfoldable pub entries_from : Option Snapshot → List LogEntry → ℕ → ℕ → List LogEntry
unfolding last_log_index
entries_from s log max_append_entries index =
    if ltb (last_log_index s log) index
    then []
    else if ltb index (first_index s)
    then []
    else (let offset = index - first_index s in
        take (min max_append_entries (length log - offset)) (drop offset log))

unfoldable pub truncate_log_from : Option Snapshot → List LogEntry → ℕ → List LogEntry
unfolding last_log_index
truncate_log_from s log index =
    if leb index (first_index s)
    then []
    else if ltb (last_log_index s log) index
    then log
    else take (index - first_index s) log

-- The entries pushed before a bad one stay in the log.
unfoldable pub append_entries : Option Snapshot → List LogEntry → Exec (List LogEntry) (Unit {0})
unfolding last_log_index
append_entries s [] log = (ok tt, log)
append_entries s (e ∷ es) log =
    let rest = append_entries s es (log ++ e ∷ []) in
    if not (e.index == next (last_log_index s log)) || e.term == 0
    then (throw runtime_error, log)
    else rest
