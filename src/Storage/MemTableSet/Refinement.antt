-- ===== src/Storage/MemTableSet/Refinement.antt =====
-- The set of tables implements one ordered map from keys to live values.
use nebula_kv.Prelude.{
  ℕ, ◌+◌, ◌-◌, ◌%◌, ◌<◌, ◌≡◌, refl, ◌∙◌, ap, Bytes, Bool, true, false, Option, none, some, arith,
  beq, length, ltb, if◌then◌else◌, Bool-cases, Option-cases, inl, inr,
}
use nebula_kv.Prelude.Result.{ok}
use nebula_kv.Prelude.OrderedMap.{
  OrderedMap, find, insert_or_assign, erase, find-insert_or_assign, find-erase, IsSorted,
  insert_or_assign-IsSorted, erase-IsSorted, length-insert_or_assign, length-erase, erase_absent,
}
use nebula_kv.Storage.Validation.{IsKey, IsValue, validate_key-IsKey, validate_value-IsValue}
use nebula_kv.Storage.MemTable.{MemTable, Entry, word, state_of, make_table, is_empty}
use nebula_kv.Storage.MemTable.Writes.{
  Stores, value_entry, tombstone_entry, put-Stores, put_total, add_tombstone-Stores,
  add_tombstone_total,
}
use nebula_kv.Storage.MemTableSet
use nebula_kv.Storage.MemTableSet.{
  MemTableSet, tables, live_value, is_value, next_sequence_number, rotate, rotate_if_required,
  rotate_active, latest_entry_without_validation, latest_state_without_validation, latest_entry,
  bury,
}
use nebula_kv.Storage.MemTableSet.Layers.{
  look, first_state-eq-look, Falls, look-Stores, Falls-Stores, look-rotate, Falls-rotate,
  Falls-IsNewer,
}

-- The map that a reader of the set sees.
pub record Represents (s : MemTableSet) (m : OrderedMap Bytes) : Type 0 where
  pub mutable : s.active.immutable ≡ false
  pub layered : (k : Bytes) → Falls s.last_sequence_number k (tables s)
  pub sorted : IsSorted m
  pub reads : (k : Bytes) → live_value (look k (tables s)) ≡ find k m
  pub counted : s.live_key_count ≡ length m % word

rotate-Represents :
    (s : MemTableSet) (m : OrderedMap Bytes) → Represents s m → Represents (rotate s) m
unfolding rotate
rotate-Represents s m r = record {
  mutable = unfold make_table in refl;
  layered = λ k. Falls-rotate k _ _ s.active s.immutable_tables (r.layered k);
  sorted = r.sorted;
  reads = λ k. ap live_value (look-rotate k _ s.active s.immutable_tables) ∙ r.reads k;
  counted = r.counted;
}

rotate_if_required-Represents :
    (s : MemTableSet) (m : OrderedMap Bytes) → Represents s m → Represents (rotate_if_required s) m
unfolding rotate_if_required
rotate_if_required-Represents s m r =
    elim (Bool-cases (ltb s.active.approximate_memory_usage s.max_memory_bytes)) [
      | inl p ↦ rw p r
      | inr p ↦ rw p (elim (Bool-cases (is_empty s.active)) [
        | inl q ↦ rw q r
        | inr q ↦ rw q (rotate-Represents s m r)
      ])
    ]

-- Rotating the active table out changes nothing that a reader sees.
pub rotate_active-Represents :
    (s : MemTableSet) (m : OrderedMap Bytes) → Represents s m → Represents (rotate_active s).0 m
unfolding rotate_active
rotate_active-Represents s m r = elim (Bool-cases (is_empty s.active)) [
  | inl q ↦ rw q r
  | inr q ↦ rw q (rotate-Represents s m r)
]

is_value-live :
    (o : Option Entry)
    → is_value (state_of o) ≡ (elim (live_value o) [ none ↦ false | some _ ↦ true ])
is_value-live o = ground arith

-- The value that is live is the one just written, or none after a tombstone.
writes : Bytes → Entry → OrderedMap Bytes → OrderedMap Bytes
writes k e m = if e.deleted then erase k m else insert_or_assign k e.value m

find-writes :
    (k j : Bytes) (e : Entry) (m : OrderedMap Bytes)
    → find j (writes k e m) ≡ (if beq j k then live_value (some e) else find j m)
unfolding writes
find-writes k j e m = ground (arith, find-insert_or_assign k j e.value m, find-erase k j m)

writes-IsSorted :
    (k : Bytes) (e : Entry) (m : OrderedMap Bytes) → IsSorted m → IsSorted (writes k e m)
unfolding writes
writes-IsSorted k e m s =
    ground (arith, insert_or_assign-IsSorted k e.value m s, erase-IsSorted k m s)

-- `count'` is the live count after the entry is stored.
counts : Bool → Bool → ℕ → ℕ
counts was_live deleted count =
    if deleted
    then (if was_live then (count + word - 1) % word else count)
    else if was_live
    then count
    else (count + 1) % word

counts-writes :
    (k : Bytes) (e : Entry) (s : MemTableSet) (m : OrderedMap Bytes)
    → Represents s m
    → counts (is_value (state_of (look k (tables s)))) e.deleted s.live_key_count
      ≡ length (writes k e m) % word
unfolding counts writes
counts-writes k e s m r = ground (
  arith,
  r.reads k,
  r.counted,
  is_value-live (look k (tables s)),
  length-insert_or_assign k e.value m r.sorted,
  length-erase k m r.sorted,
)

-- The set after an entry went into its active table, before any rotation.
after_write : Bytes → Entry → MemTable → MemTableSet → MemTableSet
after_write k e u s = record s {
  active = u;
  live_key_count = counts (is_value (state_of (look k (tables s)))) e.deleted s.live_key_count;
  last_sequence_number = e.sequence_number;
}

after_write-Represents :
    (k : Bytes) (e : Entry) (u : MemTable) (s : MemTableSet) (m : OrderedMap Bytes)
    → Represents s m
    → Stores k e s.active u
    → e.sequence_number ≡ s.last_sequence_number + 1
    → Represents (after_write k e u s) (writes k e m)
unfolding after_write
after_write-Represents k e u s m r w q = record {
  mutable = w.immutable ∙ r.mutable;
  layered = λ j.
      rw q
        (Falls-Stores k j e s.active u s.immutable_tables s.last_sequence_number w q (r.layered j));
  sorted = writes-IsSorted k e m r.sorted;
  reads = λ j.
      ground
        (arith, look-Stores k j e s.active u s.immutable_tables w, find-writes k j e m, r.reads j);
  counted = counts-writes k e s m r;
}

next_sequence_number_lem :
    (s : MemTableSet)
    → s.last_sequence_number < word - 1
    → next_sequence_number s ≡ ok (s.last_sequence_number + 1)
unfolding next_sequence_number
next_sequence_number_lem s h = ground arith

latest_state_lem :
    (k : Bytes) (s : MemTableSet)
    → IsKey k
    → latest_state_without_validation k s ≡ ok (state_of (look k (tables s)))
unfolding latest_state_without_validation
latest_state_lem k s ik = first_state-eq-look k (tables s) ik

-- A valid put succeeds while sequence numbers are left, inserts into the map that the set stands
-- for, and takes the next sequence number.
pub put-Represents :
    (k text : Bytes) (s : MemTableSet) (m : OrderedMap Bytes)
    → IsKey k
    → IsValue text
    → s.last_sequence_number < word - 1
    → Represents s m
    → (s' : MemTableSet) × (MemTableSet.put k text s ≡ ok s')
      × Represents s' (insert_or_assign k text m)
      × (s'.last_sequence_number ≡ s.last_sequence_number + 1)
unfolding MemTableSet.put
put-Represents k text s m ik iv room r =
    let n : ℕ = s.last_sequence_number + 1 in
    let e : Entry = value_entry text n in
    let (u, p) =
      put_total k text n s.active ik iv (omega arith) r.mutable
        (Falls-IsNewer _ k s.active s.immutable_tables (r.layered k)) in
    let r1 = after_write-Represents k e u s m r (put-Stores k text n s.active u p) refl in
    (
      rotate_if_required (after_write k e u s),
      rw
          (
            validate_key-IsKey k ik,
            validate_value-IsValue text iv,
            latest_state_lem k s ik,
            next_sequence_number_lem s room,
            p,
          )
          (unfold after_write counts in refl),
      unfold writes in rotate_if_required-Represents (after_write k e u s) _ r1,
      unfold rotate_if_required rotate after_write in ground arith,
    )

bury-Represents :
    (k : Bytes) (s : MemTableSet) (m : OrderedMap Bytes)
    → IsKey k
    → s.last_sequence_number < word - 1
    → Represents s m
    → (s' : MemTableSet) × (bury k (is_value (state_of (look k (tables s)))) s ≡ ok s')
      × Represents s' (erase k m)
      × (s'.last_sequence_number ≡ s.last_sequence_number + 1)
unfolding bury
bury-Represents k s m ik room r =
    let n : ℕ = s.last_sequence_number + 1 in
    let e : Entry = tombstone_entry n in
    let (u, p) =
      add_tombstone_total k n s.active ik (omega arith) r.mutable
        (Falls-IsNewer _ k s.active s.immutable_tables (r.layered k)) in
    let r1 = after_write-Represents k e u s m r (add_tombstone-Stores k n s.active u p) refl in
    (
      rotate_if_required (after_write k e u s),
      rw (next_sequence_number_lem s room, p) (unfold after_write counts in refl),
      unfold writes in rotate_if_required-Represents (after_write k e u s) _ r1,
      unfold rotate_if_required rotate after_write in ground arith,
    )

abbrev pub is_some : Option Bytes → Bool
is_some none = false
is_some (some _) = true

is_value-look :
    (k : Bytes) (s : MemTableSet) (m : OrderedMap Bytes)
    → Represents s m
    → is_value (state_of (look k (tables s))) ≡ is_some (find k m)
is_value-look k s m r = ground (arith, r.reads k, is_value-live (look k (tables s)))

-- An add_tombstone of a valid key erases the key from the map and takes the next sequence number,
-- also where the key was not live.
pub add_tombstone-Represents :
    (k : Bytes) (s : MemTableSet) (m : OrderedMap Bytes)
    → IsKey k
    → s.last_sequence_number < word - 1
    → Represents s m
    → (s' : MemTableSet) × (MemTableSet.add_tombstone k s ≡ ok s')
      × Represents s' (erase k m)
      × (s'.last_sequence_number ≡ s.last_sequence_number + 1)
unfolding MemTableSet.add_tombstone
add_tombstone-Represents k s m ik room r =
    let (s', p, r', q) = bury-Represents k s m ik room r in
    (s', rw (validate_key-IsKey k ik, latest_state_lem k s ik) p, r', q)

-- A remove of a valid key says whether the key was live, erases it from the map, and costs a
-- sequence number only where the key was live.
pub remove-Represents :
    (k : Bytes) (s : MemTableSet) (m : OrderedMap Bytes)
    → IsKey k
    → s.last_sequence_number < word - 1
    → Represents s m
    → (s' : MemTableSet) × (MemTableSet.remove k s ≡ ok (s', is_some (find k m)))
      × Represents s' (erase k m)
      × (s'.last_sequence_number
          ≡ (if is_some (find k m) then s.last_sequence_number + 1 else s.last_sequence_number))
unfolding MemTableSet.remove
remove-Represents k s m ik room r = elim (Option-cases (find k m)) [
  | inl p ↦ (
    s,
    rw (validate_key-IsKey k ik, latest_state_lem k s ik) (ground (arith, is_value-look k s m r)),
    rw (erase_absent k m p) r,
    rw p,
  )
  | inr (v, p) ↦
      let (s', q, r', l) = bury-Represents k s m ik room r in
      (
        s',
        rw (validate_key-IsKey k ik, latest_state_lem k s ik)
            (ground (arith, is_value-look k s m r)),
        r',
        rw p l,
      )
]
