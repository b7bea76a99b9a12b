-- ===== src/Storage/SsTable/Manager/Merge.antt =====
-- What a compaction merges (`compact_level0` of src/sstable_manager.cpp), from what the scans of its tables
-- return.
use nebula_kv.Prelude.{
  ◌≤◌, ◌≡◌, refl, sym, ◌∙◌, Bytes, beq, beq_iff, Option, none, some, List, [], ◌∷◌, arith,
  if◌then◌else◌, Bool-cases, ◌⊎◌, inl, inr, ltb,
}
use nebula_kv.Prelude.Result.{ok}
use nebula_kv.Prelude.Members.{Among}
use nebula_kv.Prelude.OrderedMap.{
  OrderedMap, find, find-insert_or_assign, IsSorted, find-Above, insert_or_assign-IsSorted,
}
use nebula_kv.Storage.MemTable.{Entry}
use nebula_kv.Storage.SsTable.{TableFiles}
use nebula_kv.Storage.SsTable.Manager.{ManagedTable, newer, keep_newer, merge_entries, merge_tables}

find-keep_newer :
    (k j : Bytes) (e : Entry) (m : OrderedMap Entry)
    → find k (keep_newer j e m) ≡ (if beq k j then newer (some e) (find k m) else find k m)
unfolding keep_newer
find-keep_newer k j e m = ground (arith, beq_iff k j, find-insert_or_assign j k e m)

keep_newer-IsSorted :
    (j : Bytes) (e : Entry) (m : OrderedMap Entry) → IsSorted m → IsSorted (keep_newer j e m)
unfolding keep_newer
keep_newer-IsSorted j e m s = ground (arith, insert_or_assign-IsSorted j e m s)

find-merge_entries :
    (k : Bytes) (es m : OrderedMap Entry)
    → IsSorted es
    → find k (merge_entries es m) ≡ newer (find k es) (find k m)
unfolding merge_entries find
find-merge_entries k [] m s = refl
find-merge_entries k ((j, e) ∷ es) m s =
    find-merge_entries k es (keep_newer j e m) s.1
    ∙ rw (find-keep_newer k j e m) (elim (Bool-cases (beq k j)) [
      | inl p ↦
          let q : k ≡ j = ground (arith, p, beq_iff k j) in
          let absent : find k es ≡ none = rw q (find-Above j es s.0) in rw (p, absent) refl
      | inr p ↦ rw p refl
    ])

merge_entries-IsSorted : (es m : OrderedMap Entry) → IsSorted m → IsSorted (merge_entries es m)
unfolding merge_entries
merge_entries-IsSorted [] m s = s
merge_entries-IsSorted ((j, e) ∷ es) m s =
    merge_entries-IsSorted es (keep_newer j e m) (keep_newer-IsSorted j e m s)

newer_of : (a b : Option Entry) (e : Entry) → newer a b ≡ some e → (a ≡ some e) ⊎ (b ≡ some e)
newer_of none b e h = inr h
newer_of (some x) none e h = inl h
newer_of (some x) (some y) e h = ground (arith, h)

-- Some entry that is at least as new.
abbrev pub AtLeast : Entry → Option Entry → Type 0
AtLeast e o = (f : Entry) × (o ≡ some f) × (e.sequence_number ≤ f.sequence_number)

newer_left : (e : Entry) (b : Option Entry) → AtLeast e (newer (some e) b)
newer_left e none = (e, refl, omega arith)
newer_left e (some y) = elim (Bool-cases (ltb y.sequence_number e.sequence_number)) [
  | inl p ↦ (e, rw p refl, omega arith)
  | inr p ↦ (y, rw p refl, ground (arith, p))
]

newer_right :
    (e f : Entry) (a : Option Entry)
    → e.sequence_number ≤ f.sequence_number
    → AtLeast e (newer a (some f))
newer_right e f none h = (f, refl, h)
newer_right e f (some x) h = elim (Bool-cases (ltb f.sequence_number x.sequence_number)) [
  | inl p ↦ (x, rw p refl, ground (arith, p, h))
  | inr p ↦ (f, rw p refl, h)
]

-- Tables, each with the entries that its scan returns.
abbrev pub Scans : Type 0 → Type 0
Scans R = List (ManagedTable R × OrderedMap Entry)

module _ {R : Type 0} where
  abbrev pub tables_of : Scans R → List (ManagedTable R)
  tables_of [] = []
  tables_of ((t, es) ∷ scans) = t ∷ tables_of scans

  abbrev pub AllScan : TableFiles R → Scans R → Type 0
  AllScan F [] = Unit
  AllScan F ((t, es) ∷ scans) = (F.read_all t.reader ≡ ok es) × IsSorted es × AllScan F scans

  -- The newest entry of the key in the map `m` and the scans.
  pub record IsNewest (k : Bytes) (m : OrderedMap Entry) (scans : Scans R) (o : Option Entry)
      : Type 0 where
    pub found :
        (e : Entry)
        → o ≡ some e
        → (find k m ≡ some e)
          ⊎ ((s : ManagedTable R × OrderedMap Entry) × Among s scans × (find k s.1 ≡ some e))
    pub above : (e : Entry) → find k m ≡ some e → AtLeast e o
    pub newest :
        (e : Entry) (s : ManagedTable R × OrderedMap Entry)
        → Among s scans
        → find k s.1 ≡ some e
        → AtLeast e o

  IsNewest-merge_entries :
      (k : Bytes) (m es : OrderedMap Entry) (t : ManagedTable R) (scans : Scans R)
      (o : Option Entry)
      → IsSorted es
      → IsNewest k (merge_entries es m) scans o
      → IsNewest k m ((t, es) ∷ scans) o
  IsNewest-merge_entries k m es t scans o s n =
      let p = find-merge_entries k es m s in
      record {
        found = λ e h. elim (n.found e h) [
          | inl q ↦ elim (newer_of (find k es) (find k m) e (sym p ∙ q)) [
            | inl r ↦ inr ((t, es), inl refl, r)
            | inr r ↦ inl r
          ]
          | inr (x, a, q) ↦ inr (x, inr a, q)
        ];
        above = λ e h.
            let (f, q, l) = newer_right e e (find k es) (omega arith) in
            let (g, r, u) = n.above f (p ∙ rw h q) in (g, r, omega (arith, l, u));
        newest = λ e x a h. elim a [
          | inl q ↦
              let here : find k es ≡ some e = rw q at h in
              let (f, r, l) = newer_left e (find k m) in
              let (g, w, u) = n.above f (p ∙ rw here r) in (g, w, omega (arith, l, u))
          | inr b ↦ n.newest e x b h
        ];
      }

  merge_tables_lem :
      (F : TableFiles R) (scans : Scans R) (m : OrderedMap Entry)
      → AllScan F scans
      → IsSorted m
      → (merged : OrderedMap Entry) × (merge_tables F (tables_of scans) m ≡ ok merged)
        × IsSorted merged
        × ((k : Bytes) → IsNewest k m scans (find k merged))
  unfolding merge_tables
  merge_tables_lem F [] m h s = (
    m,
    refl,
    s,
    λ k. record {
      found = λ e p. inl p;
      above = λ e p. (e, p, omega arith);
      newest = λ e x a p. absurd a;
    },
  )
  merge_tables_lem F ((t, es) ∷ scans) m (p, se, h) s =
      let (merged, q, s', n) =
        merge_tables_lem F scans (merge_entries es m) h (merge_entries-IsSorted es m s) in
      (merged, rw p q, s', λ k. IsNewest-merge_entries k m es t scans (find k merged) se (n k))

  -- Where the scan of each table returns entries in key order, merging the tables into an empty
  -- map returns; the keys are in order, every key that a scan has is there, each entry is one of a
  -- scan, and no scan has one of the same key with a larger sequence number.
  pub merge_tables-IsNewest :
      (F : TableFiles R) (scans : Scans R)
      → AllScan F scans
      → (merged : OrderedMap Entry) × (merge_tables F (tables_of scans) [] ≡ ok merged)
        × IsSorted merged
        × ((k : Bytes) → IsNewest k [] scans (find k merged))
  merge_tables-IsNewest F scans h = merge_tables_lem F scans [] h tt
