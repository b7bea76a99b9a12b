-- ===== src/Raft/Node/Log/Contiguous.antt =====
-- Logs without gaps behind a snapshot, and what the accessors return on them.
use nebula_kv.Prelude.{
  ℕ, zero, suc, ◌+◌, ◌-◌, ◌≤◌, ◌<◌, ◌≡◌, refl, Option, none, some, List, [], ◌∷◌, arith, ltb, ◌==◌,
  length, get_elem?, if◌then◌else◌,
}
use nebula_kv.Raft.Types.{LogEntry, Snapshot, word}
use nebula_kv.Raft.Node.Log.{
  snapshot_index, snapshot_term, first_index, back_index, last_log_index, term_at, entry_term,
}

-- The entries have the indices `i`, `i + 1`, … and terms of elections.
abbrev pub From : ℕ → List LogEntry → Type 0
From i [] = Unit
From i (e ∷ es) = (e.index ≡ i) × (1 ≤ e.term) × From (i + 1) es

pub back_index-From :
    (i : ℕ) (d : ℕ) (log : List LogEntry)
    → From i log
    → d + 1 ≡ i
    → back_index d log ≡ d + length log
back_index-From i d [] f h = omega arith
back_index-From i d (e ∷ es) f h =
    omega (arith, back_index-From (i + 1) e.index es f.2 (omega arith))

-- The log follows its snapshot, and its indices are 64-bit words with one to spare.
pub record IsContiguous (s : Option Snapshot) (log : List LogEntry) : Type 0 where
  pub follows : From (snapshot_index s + 1) log
  pub fits : snapshot_index s + length log + 1 < word

pub last_log_index-IsContiguous :
    (s : Option Snapshot) (log : List LogEntry)
    → IsContiguous s log
    → last_log_index s log ≡ snapshot_index s + length log
unfolding last_log_index
last_log_index-IsContiguous s log c = back_index-From _ (snapshot_index s) log c.follows refl

pub first_index-IsContiguous :
    (s : Option Snapshot) (log : List LogEntry)
    → IsContiguous s log
    → first_index s ≡ snapshot_index s + 1
first_index-IsContiguous none log c = refl
first_index-IsContiguous (some x) log c = omega (arith, c.fits)

-- The term at an index: 0 at the start, the snapshot's at its index, the entry's behind it, and none
-- elsewhere.
unfoldable pub spec_term : Option Snapshot → List LogEntry → ℕ → Option ℕ
spec_term s log index =
    if index == 0
    then some 0
    else if index == snapshot_index s
    then some (snapshot_term s)
    else if ltb index (snapshot_index s)
    then none
    else entry_term (get_elem? log (index - snapshot_index s - 1))

get_elem?_beyond {ℓ} : {A : Type ℓ} (xs : List A) (i : ℕ) → length xs ≤ i → get_elem? xs i ≡ none
get_elem?_beyond [] i h = refl
get_elem?_beyond (x ∷ xs) zero h = absurd (omega arith)
get_elem?_beyond (x ∷ xs) (suc i) h = get_elem?_beyond xs i (omega arith)

pub term_at-IsContiguous :
    (s : Option Snapshot) (log : List LogEntry) (index : ℕ)
    → IsContiguous s log
    → term_at s log index ≡ spec_term s log index
unfolding term_at spec_term
term_at-IsContiguous none log index c =
    ground (arith, last_log_index-IsContiguous none log c, get_elem?_beyond log (index - 1))
term_at-IsContiguous (some x) log index c = ground (
  arith,
  last_log_index-IsContiguous (some x) log c,
  first_index-IsContiguous (some x) log c,
  get_elem?_beyond log (index - x.last_included_index - 1),
)
