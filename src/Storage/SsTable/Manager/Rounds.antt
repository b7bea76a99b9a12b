-- ===== src/Storage/SsTable/Manager/Rounds.antt =====
-- The loop of `SSTableManager::flush` (src/sstable_manager.cpp) against the publications of other threads.
use nebula_kv.Prelude.{
  ℕ, ◌≡◌, refl, sym, Bool, true, false, List, [], ◌∷◌, ◌++◌, ◌==◌, arith, Bool-cases, inl, inr, ◌≢◌,
  ◌⊎◌,
}
use nebula_kv.Prelude.Result.{Result, Exception, ok, throw, outcome, ◌>>◌}
use nebula_kv.Prelude.Exec.{resume}
use nebula_kv.Prelude.OrderedMap.{OrderedMap}
use nebula_kv.Prelude.Members.{Among}
use nebula_kv.Storage.MemTable.{Entry}
use nebula_kv.Storage.SsTable.{TableFiles}
use nebula_kv.Storage.SsTable.Manager.{
  ManagedTable, SsTableManager, publish_tables, sort_tables, validate_level1_ranges,
  new_next_generation, metadata_for,
}
use nebula_kv.Storage.Manifest.Manager.{commit}
use nebula_kv.Storage.SsTable.Manager.Flush.{
  observe, try_publish, publish_round, publish_rounds, live_count_after_flush,
}

b_true : (b : Bool) → ok b ≡ ok true → b ≡ true
b_true true e = refl
b_true false e = absurd (cc e)

module _ {R : Type 0} where
  -- What other threads do with the readers shows in the version.
  abbrev pub ShowsInVersion : (SsTableManager R → SsTableManager R) → Type 0
  ShowsInVersion other =
      (m : SsTableManager R)
      → (other m).state_version ≡ m.state_version
      → (other m).readers ≡ m.readers

  abbrev pub AllShow : List (SsTableManager R → SsTableManager R) → Type 0
  AllShow [] = Unit
  AllShow (other ∷ others) = ShowsInVersion other × AllShow others

  -- The managers that the rounds can find behind the second lock.
  abbrev pub found_by :
      List (SsTableManager R → SsTableManager R) → SsTableManager R → List (SsTableManager R)
  found_by [] m = m ∷ []
  found_by (other ∷ others) m = other m ∷ found_by others (other m)

module _ {R : Type 0} (F : TableFiles R) (entries : OrderedMap Entry) (table : ManagedTable R) where
  -- The loop ended on the manager `n`: its readers have the new table beside them, or, behind an
  -- exception, are as they were.
  abbrev pub Settled : SsTableManager R → Result Bool × SsTableManager R → Type 0
  Settled n x =
      ((x.0 ≡ ok true) × (x.1.readers ≡ sort_tables F (n.readers ++ (table ∷ []))))
      ⊎ ((e : Exception) × (x.0 ≡ throw e) × (x.1.readers ≡ n.readers))

  published :
      (ts : List (ManagedTable R)) (count : ℕ) (n : SsTableManager R)
      → ts ≡ n.readers
      → Settled n (
          resume
            (λ (_ : Unit {0}) (m : SsTableManager R). (ok true, m))
            (publish_tables F (ts ++ (table ∷ [])) count n))
  unfolding publish_tables
  published ts count n q =
      let tables = sort_tables F (ts ++ (table ∷ [])) in
      elim (outcome (validate_level1_ranges F tables >> new_next_generation F tables)) [
        | inr (e, p) ↦ rw p (inr (e, refl, refl))
        | inl (next, p) ↦
            elim (outcome (commit (metadata_for F tables) n.next_file_id n.manifest).0) [
              | inr (e, c) ↦ rw (p, c) (inr (e, refl, refl))
              | inl (u, c) ↦ rw (p, c) (inl (refl, rw q refl))
            ]
      ]

  round_lem :
      (m n : SsTableManager R)
      → (n.state_version ≡ m.state_version → n.readers ≡ m.readers)
      → let x = publish_round F entries table (observe F m) n in
        ((x ≡ (ok false, n)) × (n.state_version ≢ m.state_version)) ⊎ Settled n x
  unfolding publish_round try_publish
  round_lem m n h = elim (outcome (live_count_after_flush F m.readers entries m.live_key_count)) [
    | inr (e, p) ↦ rw p (inr (inr (e, refl, refl)))
    | inl (count, p) ↦ elim (Bool-cases (n.state_version == m.state_version)) [
      | inl q ↦ rw (p, q) (inr (published m.readers count n (sym (h (ground (arith, q))))))
      | inr q ↦ rw (p, q) (inl (refl, ground (arith, q)))
    ]
  ]

  -- The result of the rest of the loop behind a round that did not publish.
  next_round :
      (others : List (SsTableManager R → SsTableManager R)) (x : Result Bool × SsTableManager R)
      (n : SsTableManager R)
      → Settled n x
      → Settled n (
          resume
            (λ (published : Bool) (m' : SsTableManager R). elim published [
              | true ↦ (ok true, m')
              | false ↦ publish_rounds F entries table others m'
            ])
            x)
  next_round others (ok b, m) n (inl (p, q)) = rw (b_true b p) (inl (refl, q))
  next_round others (ok b, m) n (inr (e, p, q)) = absurd (cc p)
  next_round others (throw e, m) n (inl (p, q)) = absurd (cc p)
  next_round others (throw e, m) n (inr h) = inr h

  -- Where the other threads' changes of the readers show in the version, the loop of a flush ends:
  -- on one of the managers that its rounds find behind the second lock, whose readers then have
  -- the new table beside them, in order, each one that another thread published included, or,
  -- where an exception ended the loop, are as they were found.
  pub publish_rounds-sort_tables :
      (others : List (SsTableManager R → SsTableManager R)) (m : SsTableManager R)
      → AllShow others
      → (n : SsTableManager R) × Among n (found_by others m)
        × Settled n (publish_rounds F entries table others m)
  unfolding publish_rounds
  publish_rounds-sort_tables [] m h = elim (round_lem m m (λ e. refl)) [
    | inl (p, q) ↦ absurd (q refl)
    | inr s ↦ (m, inl refl, s)
  ]
  publish_rounds-sort_tables (other ∷ others) m (h, hs) = elim (round_lem m (other m) (h m)) [
    | inl (p, q) ↦
        let (n, a, s) = publish_rounds-sort_tables others (other m) hs in (n, inr a, rw p s)
    | inr s ↦ (other m, inl refl, next_round others _ (other m) s)
  ]
