-- ===== src/Raft/Node/Commit/Compaction.antt =====
-- What `maybe_create_snapshot_locked` does to the log: the entries that the snapshot covers go, and
-- nothing that is still needed is lost.
use nebula_kv.Prelude.{
  ℕ, zero, suc, ◌+◌, ◌-◌, ◌≤◌, ◌<◌, ◌≡◌, refl, ap, subst, ◌∙◌, some, List, [], ◌∷◌, arith, length,
  get_elem?, drop, length-drop, get_elem?-drop, drop-get_elem?, Option-cases, Bool-cases, inl, inr,
  ◌==◌, ◌≢◌, ◌^◌, ◌⊎◌, Bytes, Option, none, ltb, if◌then◌else◌, ◌||◌, Bool, true, false,
}
use nebula_kv.Prelude.Result.{Result, ok, throw, Exception, length_error}
use nebula_kv.Raft.Types.{LogEntry, Snapshot, StateMachine}
use nebula_kv.Raft.Node.Log
use nebula_kv.Raft.Node.Log.{snapshot_index, last_log_index}
use nebula_kv.Raft.Node.Log.Contiguous.{
  From, IsContiguous, spec_term, term_at-IsContiguous, last_log_index-IsContiguous,
}
use nebula_kv.Raft.Node.State.{Node, term_at}
use nebula_kv.Raft.Node.Commit.{
  drop_through, create_snapshot_at, save_created, maybe_create_snapshot, save_snapshot,
}
use nebula_kv.Raft.Node.Commit.Applied.{IsReady}

drop_through-From :
    (i k : ℕ) (log : List LogEntry) → From (i + 1) log → drop_through (i + k) log ≡ drop k log
unfolding drop_through
drop_through-From i zero [] f = refl
drop_through-From i (suc k) [] f = refl
drop_through-From i zero (e ∷ es) f = ground arith
drop_through-From i (suc k) (e ∷ es) f = ground (arith, drop_through-From (i + 1) k es)

drop-From :
    (i k : ℕ) (log : List LogEntry) → From i log → k ≤ length log → From (i + k) (drop k log)
drop-From i zero log f h = subst (λ j. From j log) (omega arith) f
drop-From i (suc k) [] f h = absurd (omega arith)
drop-From i (suc k) (e ∷ es) f h =
    subst (λ j. From j (drop k es)) (omega arith) (drop-From (i + 1) k es f.2 (omega arith))

-- `n'` is `n` with the applied entries behind a snapshot: the machine and the positions are the same,
-- and the log reads the same from `last_applied` on.
pub record Compacts {S : Type 0} (n n' : Node S) : Type 0 where
  pub machine : n'.machine ≡ n.machine
  pub hard_state : n'.hard_state ≡ n.hard_state
  pub contiguous : IsContiguous n'.snapshot n'.log
  pub last : last_log_index n'.snapshot n'.log ≡ last_log_index n.snapshot n.log
  pub terms : (i : ℕ) → n.hard_state.last_applied ≤ i → term_at n' i ≡ term_at n i

drop_through_applied :
    {S : Type 0} (n : Node S)
    → IsReady n
    → drop_through n.hard_state.last_applied n.log
      ≡ drop (n.hard_state.last_applied - snapshot_index n.snapshot) n.log
drop_through_applied n r =
    let d = n.hard_state.last_applied - snapshot_index n.snapshot in
    subst (λ j. drop_through j n.log ≡ drop d n.log) (omega (arith, r.above))
      (drop_through-From (snapshot_index n.snapshot) d n.log r.contiguous.follows)

module _ {S : Type 0} (M : StateMachine S) where
  Compacts-refl : (n : Node S) → IsReady n → Compacts n n
  Compacts-refl n r = record {
    machine = refl;
    hard_state = refl;
    contiguous = r.contiguous;
    last = refl;
    terms = λ i h. refl;
  }

  abbrev cut : Node S → ℕ → Bytes → Snapshot
  cut n t payload = record {
    last_included_index = n.hard_state.last_applied;
    last_included_term = t;
    payload = payload;
  }

  cut-IsContiguous :
      (n : Node S) (t : ℕ) (payload : Bytes)
      → IsReady n
      → IsContiguous (some (cut n t payload)) (drop_through n.hard_state.last_applied n.log)
  cut-IsContiguous n t payload r =
      let d = n.hard_state.last_applied - snapshot_index n.snapshot in
      rw (drop_through_applied n r) (record {
        follows =
            subst (λ j. From j (drop d n.log)) (omega (arith, r.above))
              (drop-From _ d n.log r.contiguous.follows
                (omega (arith, r.above, r.applied, r.stored)));
        fits = omega (arith, r.above, r.contiguous.fits, length-drop d n.log);
      })

  -- Behind the new snapshot the log reads as before.
  elem_behind :
      (n : Node S) (i : ℕ)
      → IsReady n
      → n.hard_state.last_applied < i
      → get_elem? (drop_through n.hard_state.last_applied n.log) (i - n.hard_state.last_applied - 1)
        ≡ get_elem? n.log (i - snapshot_index n.snapshot - 1)
  elem_behind n i r h =
      let d = n.hard_state.last_applied - snapshot_index n.snapshot in
      let j = i - n.hard_state.last_applied - 1 in
      rw (drop_through_applied n r) (
        get_elem?-drop d j n.log
        ∙ ap (get_elem? n.log) {x = d + j} {y = i - snapshot_index n.snapshot - 1}
            (omega (arith, r.above, h)))

  cut_terms :
      (n : Node S) (t i : ℕ) (payload : Bytes)
      → IsReady n
      → n.hard_state.last_applied ≢ 0
      → term_at n n.hard_state.last_applied ≡ some t
      → n.hard_state.last_applied ≤ i
      → Log.term_at (some (cut n t payload)) (drop_through n.hard_state.last_applied n.log) i
        ≡ term_at n i
  unfolding spec_term
  cut_terms n t i payload r z e h =
      let log = drop_through n.hard_state.last_applied n.log in
      let new =
        term_at-IsContiguous (some (cut n t payload)) log i (cut-IsContiguous n t payload r) in
      let old = term_at-IsContiguous n.snapshot n.log i r.contiguous in
      ground (arith, new, old, e, r.above, elem_behind n i r)

  cut_last :
      (n : Node S) (t : ℕ) (payload : Bytes)
      → IsReady n
      → last_log_index (some (cut n t payload)) (drop_through n.hard_state.last_applied n.log)
        ≡ last_log_index n.snapshot n.log
  cut_last n t payload r =
      let log = drop_through n.hard_state.last_applied n.log in
      let d = n.hard_state.last_applied - snapshot_index n.snapshot in
      let new =
        last_log_index-IsContiguous (some (cut n t payload)) log (cut-IsContiguous n t payload r) in
      let old = last_log_index-IsContiguous n.snapshot n.log r.contiguous in
      let size : length log ≡ length n.log - d =
        rw (drop_through_applied n r) (length-drop d n.log) in
      omega (arith, new, old, size, r.above, r.applied, r.stored)

  -- What creating a snapshot of the machine throws: its own exception, or that of the storage for a
  -- payload whose length has no room in the file.
  abbrev pub refusal : Result Bytes → Option Exception
  refusal (throw e) = some e
  refusal (ok payload) = if ltb (2 ^ 32 - 1) (length payload) then some length_error else none

  -- The call returns with the entries compacted, or throws what the snapshot throws and changes nothing.
  abbrev pub Snapshots : Node S → Result (Unit {0}) × Node S → Type 0
  Snapshots n x =
      ((x.0 ≡ ok tt) × Compacts n x.1)
      ⊎ ((e : Exception) × (x ≡ (throw e, n)) × (refusal (M.create_snapshot n.machine) ≡ some e))

  save_created-Snapshots :
      (t : ℕ) (n : Node S) (payload : Result Bytes)
      → M.create_snapshot n.machine ≡ payload
      → IsReady n
      → n.hard_state.last_applied ≢ 0
      → term_at n n.hard_state.last_applied ≡ some t
      → Snapshots n (save_created M t payload n)
  unfolding save_snapshot
  save_created-Snapshots t n (throw x) c r z e = inr (x, refl, rw c refl)
  save_created-Snapshots t n (ok payload) c r z e =
      elim (Bool-cases (n.hard_state.last_applied == 0)) [
        | inl p ↦ absurd (z (ground arith))
        | inr p ↦ elim (Bool-cases (ltb (2 ^ 32 - 1) (length payload))) [
          | inl q ↦ rw (p, q) (inr (length_error, refl, rw (c, q) refl))
          | inr q ↦
              rw (p, q)
                (inl (
                  refl,
                  record {
                    machine = refl;
                    hard_state = refl;
                    contiguous = cut-IsContiguous n t payload r;
                    last = cut_last n t payload r;
                    terms = λ i h. cut_terms n t i payload r z e h;
                  },
                ))
        ]
      ]

  create_snapshot_at-Snapshots :
      (t : ℕ) (n : Node S)
      → IsReady n
      → n.hard_state.last_applied ≢ 0
      → term_at n n.hard_state.last_applied ≡ some t
      → Snapshots n (create_snapshot_at M (some t) n)
  unfolding create_snapshot_at
  create_snapshot_at-Snapshots t n = save_created-Snapshots t n (M.create_snapshot n.machine) refl

  term_at_applied :
      (n : Node S)
      → IsReady n
      → n.hard_state.last_applied ≢ 0
      → (t : ℕ) × (term_at n n.hard_state.last_applied ≡ some t)
  unfolding spec_term
  term_at_applied n r z = elim (Option-cases (term_at n n.hard_state.last_applied)) [
    | inl p ↦
        let i = n.hard_state.last_applied - snapshot_index n.snapshot - 1 in
        let a = term_at-IsContiguous n.snapshot n.log n.hard_state.last_applied r.contiguous in
        absurd (ground (arith, p, a, z, r.above, r.applied, r.stored, drop-get_elem? n.log i))
    | inr x ↦ x
  ]

  Snapshots-if :
      (n : Node S) (b : Bool) (x y : Result (Unit {0}) × Node S)
      → (b ≡ true → Snapshots n x)
      → (b ≡ false → Snapshots n y)
      → Snapshots n (if b then x else y)
  Snapshots-if n true x y f g = f refl
  Snapshots-if n false x y f g = g refl

  -- On a node that is ready, whether a snapshot is due or not, the call either throws, changes
  -- nothing, and the exception is that of the machine's create_snapshot or a length_error for a
  -- payload of 2^32 bytes or more; or it returns, the machine and the positions stay, and the log
  -- has no gaps, ends where it did, and has the same term at every index from last_applied on.
  pub maybe_create_snapshot-Snapshots :
      (n : Node S) → IsReady n → Snapshots n (maybe_create_snapshot M n)
  unfolding maybe_create_snapshot
  maybe_create_snapshot-Snapshots n r =
      let same : Snapshots n (ok tt, n) = inl (refl, Compacts-refl n r) in
      let idle = n.options.snapshot_threshold_entries == 0 || n.hard_state.last_applied == 0 in
      Snapshots-if n idle _ _ (λ h. same)
        λ (h : idle ≡ false).
          Snapshots-if n _ _ (create_snapshot_at M (term_at n n.hard_state.last_applied) n)
            (λ g. same)
            λ g.
              let z : n.hard_state.last_applied ≢ 0 = ground (arith, h) in
              let (t, e) = term_at_applied n r z in rw e (create_snapshot_at-Snapshots t n r z e)
