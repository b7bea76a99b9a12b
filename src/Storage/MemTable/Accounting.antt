-- ===== src/Storage/MemTable/Accounting.antt =====
-- The well-formedness of a table: its keys are in order and its memory count is the sum of the
-- estimates of its entries, in 64-bit arithmetic.
use nebula_kv.Prelude.{
  ℕ, ◌+◌, ◌%◌, ◌<◌, ◌≡◌, Bytes, true, false, Option, none, some, [], ◌∷◌, arith, beq_iff,
}
use nebula_kv.Prelude.Result.{ok}
use nebula_kv.Prelude.OrderedMap.{
  OrderedMap, find, insert_or_assign, find-Above, Above-trans, IsSorted, insert_or_assign-IsSorted,
}
use nebula_kv.Storage.MemTable.{
  Entry, MemTable, word, estimated_entry_size, write_entry, write, put, add_tombstone, freeze,
  make_table,
}

abbrev pub total : OrderedMap Entry → ℕ
total [] = 0
total ((k, e) ∷ m) = estimated_entry_size k e + total m

abbrev old_size : Bytes → Option Entry → ℕ
old_size k none = 0
old_size k (some e) = estimated_entry_size k e

total-insert :
    (k : Bytes) (e : Entry) (m : OrderedMap Entry)
    → IsSorted m
    → total (insert_or_assign k e m) + old_size k (find k m) ≡ total m + estimated_entry_size k e
unfolding find insert_or_assign
total-insert k e [] s = omega arith
total-insert k e ((j, w) ∷ m) s =
    ground (arith, beq_iff k j, find-Above k m, Above-trans k j m, total-insert k e m)

pub record IsValid (t : MemTable) : Type 0 where
  pub sorted : IsSorted t.entries
  pub counted : t.approximate_memory_usage ≡ total t.entries % word

pub make_table-IsValid : (g : ℕ) → IsValid (make_table g)
unfolding make_table
make_table-IsValid g = record { sorted = tt; counted = omega arith }

estimated-lt : (k : Bytes) (e : Entry) → estimated_entry_size k e < word
unfolding estimated_entry_size
estimated-lt k e = omega arith

write_entry-IsValid :
    (k : Bytes) (e : Entry) (t u : MemTable) (o : Option Entry)
    → o ≡ find k t.entries
    → IsValid t
    → write_entry k e t o ≡ ok u
    → IsValid u
unfolding write_entry
write_entry-IsValid k e t u none p v h =
    ground (arith, insert_or_assign-IsSorted k e t.entries, total-insert k e t.entries)
write_entry-IsValid k e t u (some x) p v h =
    ground
      (arith, insert_or_assign-IsSorted k e t.entries, total-insert k e t.entries, estimated-lt k x)

pub write-IsValid :
    (k : Bytes) (e : Entry) (t u : MemTable) → IsValid t → write k e t ≡ ok u → IsValid u
unfolding write
write-IsValid k e t u v h =
    write_entry-IsValid k e t u (find k t.entries) (ground arith) v (ground arith)

-- A successful put into a valid table leaves its keys in order and its memory count equal to the
-- sum of the estimates of its entries, in 64-bit arithmetic.
pub put-IsValid :
    (k text : Bytes) (n : ℕ) (t u : MemTable) → IsValid t → put k text n t ≡ ok u → IsValid u
unfolding put
put-IsValid k text n t u v h =
    write-IsValid k (record { value = text; sequence_number = n; deleted = false }) t u v
      (ground arith)

pub add_tombstone-IsValid :
    (k : Bytes) (n : ℕ) (t u : MemTable) → IsValid t → add_tombstone k n t ≡ ok u → IsValid u
unfolding add_tombstone
add_tombstone-IsValid k n t u v h =
    write-IsValid k (record { value = []; sequence_number = n; deleted = true }) t u v
      (ground arith)

pub freeze-IsValid : (t : MemTable) → IsValid t → IsValid (freeze t)
unfolding freeze
freeze-IsValid t v = record { sorted = v.sorted; counted = v.counted }
