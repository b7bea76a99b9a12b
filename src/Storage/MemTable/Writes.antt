-- ===== src/Storage/MemTable/Writes.antt =====
-- When a write is accepted, and what it changes.
use nebula_kv.Prelude.{
  ℕ, ◌<◌, ◌≡◌, refl, ◌≢◌, Bytes, true, false, Option, none, some, [], arith, beq, if◌then◌else◌,
}
use nebula_kv.Prelude.Result.{Exception, ok, throw, returns}
use nebula_kv.Prelude.OrderedMap.{find, find-insert_or_assign}
use nebula_kv.Storage.Validation.{IsKey, IsValue, validate_key-IsKey, validate_value-IsValue}
use nebula_kv.Storage.MemTable.{Entry, MemTable, write_entry, write, put, add_tombstone}

-- `n` is above the sequence number of the entry for the key, if there is one.
abbrev pub IsNewer : ℕ → Option Entry → Type 0
IsNewer n none = Unit
IsNewer n (some e) = e.sequence_number < n

abbrev pub value_entry : Bytes → ℕ → Entry
value_entry text n = record { value = text; sequence_number = n; deleted = false }

abbrev pub tombstone_entry : ℕ → Entry
tombstone_entry n = record { value = []; sequence_number = n; deleted = true }

-- What a successful write leaves: the entry under its key, all else as it was.
pub record Stores (k : Bytes) (e : Entry) (t u : MemTable) : Type 0 where
  pub lookup : (j : Bytes) → find j u.entries ≡ (if beq j k then some e else find j t.entries)
  pub generation : u.generation ≡ t.generation
  pub immutable : u.immutable ≡ t.immutable
  pub newer : IsNewer e.sequence_number (find k t.entries)
  pub mutable : t.immutable ≡ false

write_entry-Stores :
    (k : Bytes) (e : Entry) (t u : MemTable) (o : Option Entry)
    → o ≡ find k t.entries
    → t.immutable ≡ false
    → write_entry k e t o ≡ ok u
    → Stores k e t u
unfolding write_entry
write_entry-Stores k e t u none p m h = record {
  lookup = λ j. ground (arith, find-insert_or_assign k j e t.entries);
  generation = ground arith;
  immutable = ground arith;
  newer = ground arith;
  mutable = m;
}
write_entry-Stores k e t u (some x) p m h = record {
  lookup = λ j. ground (arith, find-insert_or_assign k j e t.entries);
  generation = ground arith;
  immutable = ground arith;
  newer = ground arith;
  mutable = m;
}

pub write-Stores : (k : Bytes) (e : Entry) (t u : MemTable) → write k e t ≡ ok u → Stores k e t u
unfolding write
write-Stores k e t u h =
    write_entry-Stores k e t u (find k t.entries) refl (ground arith) (ground arith)

pub put-Stores :
    (k text : Bytes) (n : ℕ) (t u : MemTable)
    → put k text n t ≡ ok u
    → Stores k (value_entry text n) t u
unfolding put
put-Stores k text n t u h = write-Stores k (value_entry text n) t u (ground arith)

pub add_tombstone-Stores :
    (k : Bytes) (n : ℕ) (t u : MemTable)
    → add_tombstone k n t ≡ ok u
    → Stores k (tombstone_entry n) t u
unfolding add_tombstone
add_tombstone-Stores k n t u h = write-Stores k (tombstone_entry n) t u (ground arith)

write-ne-throw :
    (k : Bytes) (e : Entry) (t : MemTable) (x : Exception)
    → t.immutable ≡ false
    → IsNewer e.sequence_number (find k t.entries)
    → write k e t ≢ throw x
unfolding write
write-ne-throw k e t x m n = ground arith

pub put_total :
    (k text : Bytes) (n : ℕ) (t : MemTable)
    → IsKey k
    → IsValue text
    → 0 < n
    → t.immutable ≡ false
    → IsNewer n (find k t.entries)
    → (u : MemTable) × (put k text n t ≡ ok u)
unfolding put
put_total k text n t ik iv p m new = returns (put k text n t) λ x h. ground (
  arith,
  validate_key-IsKey k ik,
  validate_value-IsValue text iv,
  write-ne-throw k (value_entry text n) t x m new,
)

pub add_tombstone_total :
    (k : Bytes) (n : ℕ) (t : MemTable)
    → IsKey k
    → 0 < n
    → t.immutable ≡ false
    → IsNewer n (find k t.entries)
    → (u : MemTable) × (add_tombstone k n t ≡ ok u)
unfolding add_tombstone
add_tombstone_total k n t ik p m new =
    returns (add_tombstone k n t)
      λ x h. ground (arith, validate_key-IsKey k ik, write-ne-throw k (tombstone_entry n) t x m new)

-- What a put asks for.
pub record Accepts (k text : Bytes) (n : ℕ) (t : MemTable) : Type 0 where
  pub key : IsKey k
  pub value : IsValue text
  pub positive : 0 < n
  pub mutable : t.immutable ≡ false
  pub newer : IsNewer n (find k t.entries)
