-- ===== src/Storage/MemTableSet/History.antt =====
-- Any history of calls on a set of tables, against the same history on one ordered map.
use nebula_kv.Prelude.{◌+◌, ◌-◌, ◌≤◌, ◌<◌, ◌≡◌, refl, Bytes, List, [], ◌∷◌, arith, length}
use nebula_kv.Prelude.Result.{Result, ok, ◌>>=◌}
use nebula_kv.Prelude.OrderedMap.{OrderedMap, find, insert_or_assign, erase}
use nebula_kv.Storage.Validation.{IsKey, IsValue}
use nebula_kv.Storage.MemTable.{word, make_table}
use nebula_kv.Storage.MemTableSet
use nebula_kv.Storage.MemTableSet.{MemTableSet, MemTableOptions, make_set, rotate_active}
use nebula_kv.Storage.MemTableSet.Layers.{Falls, look}
use nebula_kv.Storage.MemTableSet.Refinement.{
  Represents, put-Represents, remove-Represents, add_tombstone-Represents, rotate_active-Represents,
}

pub data Call : Type 0 where
  put : Bytes → Bytes → Call
  remove add_tombstone : Bytes → Call
  rotate : Call

unfoldable pub call : Call → MemTableSet → Result MemTableSet
call (put k text) s = MemTableSet.put k text s
call (remove k) s = do (s', _) ← MemTableSet.remove k s; ok s'
call (add_tombstone k) s = MemTableSet.add_tombstone k s
call rotate s = ok (rotate_active s).0

unfoldable pub run : List Call → MemTableSet → Result MemTableSet
run [] s = ok s
run (c ∷ cs) s = do s' ← call c s; run cs s'

-- The same calls on the map.
abbrev pub on_map : Call → OrderedMap Bytes → OrderedMap Bytes
on_map (put k text) m = insert_or_assign k text m
on_map (remove k) m = erase k m
on_map (add_tombstone k) m = erase k m
on_map rotate m = m

abbrev pub run_on_map : List Call → OrderedMap Bytes → OrderedMap Bytes
run_on_map [] m = m
run_on_map (c ∷ cs) m = run_on_map cs (on_map c m)

abbrev pub IsValidCall : Call → Type 0
IsValidCall (put k text) = IsKey k × IsValue text
IsValidCall (remove k) = IsKey k
IsValidCall (add_tombstone k) = IsKey k
IsValidCall rotate = Unit

abbrev pub AllValid : List Call → Type 0
AllValid [] = Unit
AllValid (c ∷ cs) = IsValidCall c × AllValid cs

-- A new set is empty.
pub make_set-Represents :
    (options : MemTableOptions) (s : MemTableSet) → make_set options ≡ ok s → Represents s []
unfolding make_set make_table look Falls find
make_set-Represents options s h = record {
  mutable = ground arith;
  layered = λ k. ground arith;
  sorted = tt;
  reads = λ k. ground arith;
  counted = ground arith;
}

-- One valid call with a sequence number left.
call-Represents :
    (c : Call) (s : MemTableSet) (m : OrderedMap Bytes)
    → IsValidCall c
    → s.last_sequence_number < word - 1
    → Represents s m
    → (s' : MemTableSet) × (call c s ≡ ok s')
      × Represents s' (on_map c m)
      × (s'.last_sequence_number ≤ s.last_sequence_number + 1)
unfolding call
call-Represents (put k text) s m v room r =
    let (s', p, r', l) = put-Represents k text s m v.0 v.1 room r in (s', p, r', omega arith)
call-Represents (remove k) s m v room r =
    let (s', p, r', l) = remove-Represents k s m v room r in (s', rw p, r', ground arith)
call-Represents (add_tombstone k) s m v room r =
    let (s', p, r', l) = add_tombstone-Represents k s m v room r in (s', p, r', omega arith)
call-Represents rotate s m v room r = (
  _,
  refl,
  rotate_active-Represents s m r,
  unfold rotate_active MemTableSet.rotate in ground arith,
)

-- Any history of valid puts, removals, tombstones and rotations on a set of tables, in which no
-- table is discarded, succeeds while sequence numbers are left, and leaves a set whose reads and
-- whose count of live keys are those of an ordered map after the same calls.
pub run-Represents :
    (cs : List Call) (s : MemTableSet) (m : OrderedMap Bytes)
    → AllValid cs
    → s.last_sequence_number + length cs < word
    → Represents s m
    → (s' : MemTableSet) × (run cs s ≡ ok s') × Represents s' (run_on_map cs m)
unfolding run
run-Represents [] s m v room r = (s, refl, r)
run-Represents (c ∷ cs) s m v room r =
    let (s1, p, r1, l) = call-Represents c s m v.0 (omega arith) r in
    let (s2, q, r2) = run-Represents cs s1 (on_map c m) v.1 (omega arith) r1 in (s2, rw p q, r2)
