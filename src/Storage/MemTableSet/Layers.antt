-- ===== src/Storage/MemTableSet/Layers.antt =====
-- Reading through the layers of tables, newest first.
use nebula_kv.Prelude.{
  ℕ, ◌+◌, ◌-◌, ◌≤◌, ◌≡◌, refl, Bytes, Option, none, some, List, [], ◌∷◌, arith, beq, if◌then◌else◌,
  Option-cases, inl, inr,
}
use nebula_kv.Prelude.Result.{ok}
use nebula_kv.Prelude.OrderedMap.{find}
use nebula_kv.Storage.Validation.{IsKey, validate_key-IsKey}
use nebula_kv.Storage.MemTable.{
  MemTable, Entry, get_entry, lookup_state, state_of, make_table, freeze,
}
use nebula_kv.Storage.MemTable.Writes.{Stores, IsNewer}
use nebula_kv.Storage.MemTableSet.{first_entry, first_state}

-- The entry that a reader finds.
unfoldable pub look : Bytes → List MemTable → Option Entry
look k [] = none
look k (t ∷ ts) = elim (find k t.entries) [ some e ↦ some e | none ↦ look k ts ]

pub first_entry-eq-look :
    (k : Bytes) (ts : List MemTable) → IsKey k → first_entry k ts ≡ ok (look k ts)
unfolding first_entry look get_entry
first_entry-eq-look k [] ik = refl
first_entry-eq-look k (t ∷ ts) ik =
    ground (arith, validate_key-IsKey k ik, first_entry-eq-look k ts ik)

pub first_state-eq-look :
    (k : Bytes) (ts : List MemTable) → IsKey k → first_state k ts ≡ ok (state_of (look k ts))
unfolding first_state look lookup_state
first_state-eq-look k [] ik = refl
first_state-eq-look k (t ∷ ts) ik =
    ground (arith, validate_key-IsKey k ik, first_state-eq-look k ts ik)

-- The sequence numbers of the key are at most `bound` and fall from newer to older tables.
unfoldable pub Falls : ℕ → Bytes → List MemTable → Type 0
Falls bound k [] = Unit
Falls bound k (t ∷ ts) = elim (find k t.entries) [
  | none ↦ Falls bound k ts
  | some e ↦
      (e.sequence_number ≤ bound) × (1 ≤ e.sequence_number) × Falls (e.sequence_number - 1) k ts
]

pub Falls-mono : (m n : ℕ) (k : Bytes) (ts : List MemTable) → m ≤ n → Falls m k ts → Falls n k ts
unfolding Falls
Falls-mono m n k [] h f = tt
Falls-mono m n k (t ∷ ts) h f = ground (arith, Falls-mono m n k ts h)

-- A write into the newest layer shows at its key only.
pub look-Stores :
    (k j : Bytes) (e : Entry) (t u : MemTable) (ts : List MemTable)
    → Stores k e t u
    → look j (u ∷ ts) ≡ (if beq j k then some e else look j (t ∷ ts))
unfolding look
look-Stores k j e t u ts w = ground (arith, w.lookup j)

Falls-tail_entry :
    (n : ℕ) (k : Bytes) (t : MemTable) (ts : List MemTable) (o : Option Entry)
    → find k t.entries ≡ o
    → Falls n k (t ∷ ts)
    → Falls n k ts
unfolding Falls
Falls-tail_entry n k t ts none p f = ground arith
Falls-tail_entry n k t ts (some e) p f = ground (arith, Falls-mono (e.sequence_number - 1) n k ts)

Falls-tail :
    (n : ℕ) (k : Bytes) (t : MemTable) (ts : List MemTable) → Falls n k (t ∷ ts) → Falls n k ts
Falls-tail n k t ts f = Falls-tail_entry n k t ts (find k t.entries) refl f

-- A write with the next sequence number keeps the layers in order.
pub Falls-Stores :
    (k j : Bytes) (e : Entry) (t u : MemTable) (ts : List MemTable) (last : ℕ)
    → Stores k e t u
    → e.sequence_number ≡ last + 1
    → Falls last j (t ∷ ts)
    → Falls (last + 1) j (u ∷ ts)
unfolding Falls
Falls-Stores k j e t u ts last w q f = ground (
  arith,
  w.lookup j,
  Falls-mono last (last + 1) j (t ∷ ts),
  Falls-mono last (e.sequence_number - 1) j ts,
  Falls-tail last j t ts f,
)

-- An empty newest layer is not seen, and freezing a table does not change what is read from it.
pub look-rotate :
    (j : Bytes) (g : ℕ) (t : MemTable) (ts : List MemTable)
    → look j (make_table g ∷ freeze t ∷ ts) ≡ look j (t ∷ ts)
unfolding look make_table freeze find
look-rotate j g t ts = refl

pub Falls-rotate :
    (j : Bytes) (g last : ℕ) (t : MemTable) (ts : List MemTable)
    → Falls last j (t ∷ ts)
    → Falls last j (make_table g ∷ freeze t ∷ ts)
unfolding Falls make_table freeze find
Falls-rotate j g last t ts f = f

pub Falls-IsNewer :
    (n : ℕ) (k : Bytes) (t : MemTable) (ts : List MemTable)
    → Falls n k (t ∷ ts)
    → IsNewer (n + 1) (find k t.entries)
unfolding Falls
Falls-IsNewer n k t ts f = ground arith

abbrev pub AtMost : ℕ → Option Entry → Type 0
AtMost n none = Unit
AtMost n (some e) = e.sequence_number ≤ n

abbrev pub EachAtMost : ℕ → Bytes → List MemTable → Type 0
EachAtMost n k [] = Unit
EachAtMost n k (t ∷ ts) = AtMost n (find k t.entries) × EachAtMost n k ts

Falls-EachAtMost :
    (n m : ℕ) (k : Bytes) (ts : List MemTable) → m ≤ n → Falls m k ts → EachAtMost n k ts
unfolding Falls
Falls-EachAtMost n m k [] h f = tt
Falls-EachAtMost n m k (t ∷ ts) h f =
    (ground arith, Falls-EachAtMost n m k ts h (Falls-tail m k t ts f))

-- Where the layers are in order, the entry that a reader finds is the newest one of its key.
pub look-EachAtMost :
    (n : ℕ) (k : Bytes) (ts : List MemTable) (e : Entry)
    → Falls n k ts
    → look k ts ≡ some e
    → (e.sequence_number ≤ n) × EachAtMost e.sequence_number k ts
unfolding look
look-EachAtMost n k [] e f h = absurd (cc)
look-EachAtMost n k (t ∷ ts) e f h = elim (Option-cases (find k t.entries)) [
  | inl p ↦
      let ih = look-EachAtMost n k ts e (Falls-tail n k t ts f) (ground arith) in
      (ih.0, (ground arith, ih.1))
  | inr (x, p) ↦
      let g : (x.sequence_number ≤ n)
          × (1 ≤ x.sequence_number)
          × Falls (x.sequence_number - 1) k ts =
        unfold Falls in rw (p, Falls) at f in
      (
        ground arith,
        (
          ground arith,
          Falls-EachAtMost e.sequence_number (x.sequence_number - 1) k ts (ground arith) g.2,
        ),
      )
]
