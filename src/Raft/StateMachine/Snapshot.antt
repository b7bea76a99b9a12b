-- ===== src/Raft/StateMachine/Snapshot.antt =====
-- The snapshots of the state machine (src/raft/state_machine.cpp) read back as they were written.
use mathlib.Core.List.{append_assoc, append-nil}
use nebula_kv.Prelude.{
  ◌^◌, ◌<◌, ◌≡◌, refl, ap, sym, Bytes, beq_iff, blt, blt_trans, blt_irrefl, arith, length, true,
  none, [], ◌∷◌, ◌++◌,
}
use nebula_kv.Prelude.Result.{ok}
use nebula_kv.Prelude.OrderedMap.{OrderedMap, find, insert_or_assign, Above, IsSorted}
use nebula_kv.Storage.Validation.{IsKey, IsValue, validate_key-IsKey, validate_value-IsValue}
use nebula_kv.Raft.Types.{word}
use nebula_kv.Raft.Codec.{append_u32, append_u64}
use nebula_kv.Raft.Codec.RoundTrip.{
  read_u32-append_u32, read_u64-append_u64, read_bytes-append_bytes, append_bytes_ok,
}
use nebula_kv.Raft.Storage.{ensure_empty}
use nebula_kv.Raft.StateMachine.{
  snapshot_version, encode_values, encode_map, emplace, read_value, read_count, restore_values,
  restore_map,
}

-- What a machine's map holds.
abbrev pub AreValid : OrderedMap Bytes → Type 0
AreValid [] = Unit
AreValid ((key, value) ∷ values) = IsKey key × IsValue value × AreValid values

head_below_last :
    (j k : Bytes) (v : Bytes) (before after : OrderedMap Bytes)
    → Above j (before ++ (k, v) ∷ after)
    → blt j k ≡ true
head_below_last j k v [] after a = a.0
head_below_last j k v ((i, w) ∷ before) after a = head_below_last j k v before after a.1

-- The last key of a map is new to the entries before it, and written behind them.
find_last :
    (k v : Bytes) (before after : OrderedMap Bytes)
    → IsSorted (before ++ (k, v) ∷ after)
    → find k before ≡ none
unfolding find
find_last k v [] after s = refl
find_last k v ((j, w) ∷ before) after s = ground (
  arith,
  beq_iff k j,
  blt_irrefl k,
  head_below_last j k v before after s.0,
  find_last k v before after s.1,
)

pub insert_last :
    (k v : Bytes) (before after : OrderedMap Bytes)
    → IsSorted (before ++ (k, v) ∷ after)
    → insert_or_assign k v before ≡ before ++ (k, v) ∷ []
unfolding insert_or_assign
insert_last k v [] after s = refl
insert_last k v ((j, w) ∷ before) after s = ground (
  arith,
  beq_iff k j,
  blt_irrefl k,
  blt_trans k j k,
  head_below_last j k v before after s.0,
  insert_last k v before after s.1,
)

emplace_last :
    (k v : Bytes) (before after : OrderedMap Bytes)
    → IsSorted (before ++ (k, v) ∷ after)
    → emplace k v before ≡ (ok tt, before ++ (k, v) ∷ [])
unfolding emplace
emplace_last k v before after s =
    ground (arith, find_last k v before after s, insert_last k v before after s)

abbrev part : Bytes → Bytes
part text = append_u32 (length text) ++ text

key_fits : (key : Bytes) → IsKey key → length key < 2 ^ 32
key_fits key h = omega (arith, h.fits)

value_fits : (value : Bytes) → IsValue value → length value < 2 ^ 32
value_fits value h = omega (arith, h)

read_value-part :
    (k v tail : Bytes)
    → IsKey k
    → IsValue v
    → read_value (part k ++ (part v ++ tail)) ≡ ok ((k, v), tail)
unfolding read_value
read_value-part k v tail hk hv =
    rw
      (
        read_bytes-append_bytes k (part v ++ tail) (key_fits k hk),
        read_bytes-append_bytes v tail (value_fits v hv),
        validate_key-IsKey k hk,
        validate_value-IsValue v hv,
      )
      refl

-- The entries that are read go behind those that are there.
restore_values-encode_values :
    (before values : OrderedMap Bytes) (tail : Bytes)
    → AreValid values
    → IsSorted (before ++ values)
    → (bytes : Bytes) × (encode_values values ≡ ok bytes)
      × (restore_values (length values) (bytes ++ tail) before ≡ (ok tail, before ++ values))
unfolding encode_values restore_values
restore_values-encode_values before [] tail h s =
    ([], refl, ap (λ m. (ok tail, m)) (sym (append-nil before)))
restore_values-encode_values before ((k, v) ∷ values) tail (hk, hv, h) s =
    let e = append_assoc before ((k, v) ∷ []) values in
    let (bytes, p, q) =
      restore_values-encode_values (before ++ (k, v) ∷ []) values tail h (rw e s) in
    (
      part k ++ (part v ++ bytes),
      rw (append_bytes_ok k (key_fits k hk), append_bytes_ok v (value_fits v hv), p) refl,
      rw
          (
            append_assoc (part k) (part v ++ bytes) tail,
            append_assoc (part v) bytes tail,
            read_value-part k v (bytes ++ tail) hk hv,
            emplace_last k v before values s,
            q,
            e,
          )
          refl,
    )

-- A map with its keys in order, each key and value within the limits of the store and fewer than
-- 2^64 entries is encoded without an exception, and the payload restores the same map into an
-- empty one.
pub restore_map-encode_map :
    (values : OrderedMap Bytes)
    → AreValid values
    → IsSorted values
    → length values < word
    → (payload : Bytes) × (encode_map values ≡ ok payload)
      × (restore_map payload [] ≡ (ok tt, values))
unfolding encode_map restore_map read_count ensure_empty
restore_map-encode_map values h s n =
    let (bytes, p, q) = restore_values-encode_values [] values [] h s in
    (
      append_u32 snapshot_version ++ (append_u64 (length values) ++ bytes),
      rw p refl,
      rw
          (
            read_u32-append_u32 snapshot_version (append_u64 (length values) ++ bytes)
                (omega arith),
            read_u64-append_u64 (length values) bytes n,
            sym (append-nil bytes),
            q,
          )
          refl,
    )
