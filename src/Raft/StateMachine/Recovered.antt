-- ===== src/Raft/StateMachine/Recovered.antt =====
-- The recovery of the state machine (src/raft/state_machine.cpp) from a snapshot and the entries behind it.
use mathlib.Core.List.{append_assoc, append-nil}
use nebula_kv.Prelude.{
  ap, sym, ◌∙◌, ℕ, ◌<◌, ◌≡◌, refl, Bytes, beq_iff, arith, length, some, List, [], ◌∷◌, ◌++◌,
}
use nebula_kv.Prelude.Result.{ok}
use nebula_kv.Prelude.OrderedMap.{
  OrderedMap, insert_or_assign, erase, insert_or_assign-IsSorted, erase-IsSorted, IsSorted,
}
use nebula_kv.Storage.Validation.{IsKey, IsValue}
use nebula_kv.Raft.Types.{CommandType, noop, put, delete, LogEntry, word}
use nebula_kv.Raft.Types
use nebula_kv.Raft.StateMachine.{
  DurableStore, Machine, restore_map, create_snapshot, install_snapshot, load_snapshot, recover,
  apply_commands,
}
use nebula_kv.Raft.StateMachine.Snapshot.{AreValid, insert_last, restore_map-encode_map}
use nebula_kv.Raft.StateMachine.Applies.{
  interpret, interpret_all, Accepted, AllAccepted, StoreCall, clear_call, open_call,
  checkpoint_call, put_call, remove_call, on_map, calls_of, all_calls, puts_of, perform_all,
  Performs, Performs-seq, apply_commands-Performs, load_payload-Performs, reset_storage-Performs,
  checkpoint-Performs,
}

insert_or_assign-AreValid :
    (k v : Bytes) (m : OrderedMap Bytes)
    → IsKey k
    → IsValue v
    → AreValid m
    → AreValid (insert_or_assign k v m)
unfolding insert_or_assign
insert_or_assign-AreValid k v [] hk hv h = (hk, hv, tt)
insert_or_assign-AreValid k v ((j, w) ∷ m) hk hv h =
    ground (arith, beq_iff k j, insert_or_assign-AreValid k v m)

erase-AreValid : (k : Bytes) (m : OrderedMap Bytes) → AreValid m → AreValid (erase k m)
unfolding erase
erase-AreValid k [] h = tt
erase-AreValid k ((j, w) ∷ m) h = ground (arith, erase-AreValid k m)

-- The map of a machine, which its snapshots can hold.
abbrev IsMap : OrderedMap Bytes → Type 0
IsMap m = AreValid m × IsSorted m

interpret_parts :
    (t : CommandType) (k v : Bytes) (m : OrderedMap Bytes)
    → Accepted (record { type = t; key = k; value = v })
    → IsMap m
    → IsMap (interpret (record { type = t; key = k; value = v }) m)
interpret_parts noop k v m h g = g
interpret_parts put k v m h g =
    (insert_or_assign-AreValid k v m h.0 h.1 g.0, insert_or_assign-IsSorted k v m g.1)
interpret_parts delete k v m h g = (erase-AreValid k m g.0, erase-IsSorted k m g.1)

interpret_all-IsMap :
    (es : List LogEntry) (m : OrderedMap Bytes)
    → AllAccepted es
    → IsMap m
    → IsMap (interpret_all es m)
interpret_all-IsMap [] m h g = g
interpret_all-IsMap (e ∷ es) m h g =
    interpret_all-IsMap es (interpret e.command m) h.1
      (interpret_parts e.command.type e.command.key e.command.value m h.0 g)

interpret_all-append :
    (es fs : List LogEntry) (m : OrderedMap Bytes)
    → interpret_all (es ++ fs) m ≡ interpret_all fs (interpret_all es m)
interpret_all-append [] fs m = refl
interpret_all-append (e ∷ es) fs m = interpret_all-append es fs (interpret e.command m)

on_map-append :
    (calls more : List StoreCall) (m : OrderedMap Bytes)
    → on_map (calls ++ more) m ≡ on_map more (on_map calls m)
on_map-append [] more m = refl
on_map-append (clear_call ∷ calls) more m = on_map-append calls more []
on_map-append (open_call ∷ calls) more m = on_map-append calls more m
on_map-append (checkpoint_call ∷ calls) more m = on_map-append calls more m
on_map-append (put_call k v ∷ calls) more m = on_map-append calls more (insert_or_assign k v m)
on_map-append (remove_call k ∷ calls) more m = on_map-append calls more (erase k m)

on_map_parts :
    (t : CommandType) (k v : Bytes) (m : OrderedMap Bytes)
    → on_map (calls_of (record { type = t; key = k; value = v })) m
      ≡ interpret (record { type = t; key = k; value = v }) m
on_map_parts noop k v m = refl
on_map_parts put k v m = refl
on_map_parts delete k v m = refl

on_map-all_calls :
    (es : List LogEntry) (m : OrderedMap Bytes) → on_map (all_calls es) m ≡ interpret_all es m
on_map-all_calls [] m = refl
on_map-all_calls (e ∷ es) m =
    on_map-append (calls_of e.command) (all_calls es) m
    ∙ ap (on_map (all_calls es)) (on_map_parts e.command.type e.command.key e.command.value m)
    ∙ on_map-all_calls es (interpret e.command m)

-- Written in order behind what is there, the entries of a map make that map.
on_map-puts_of :
    (before values : OrderedMap Bytes)
    → IsSorted (before ++ values)
    → on_map (puts_of values) before ≡ before ++ values
on_map-puts_of before [] s = sym (append-nil before)
on_map-puts_of before ((k, v) ∷ values) s =
    let e = append_assoc before ((k, v) ∷ []) values in
    ap (on_map (puts_of values)) (insert_last k v before values s)
    ∙ on_map-puts_of (before ++ (k, v) ∷ []) values (rw e s)
    ∙ e

-- The calls of a recovery from a snapshot with this map, and of its install.
abbrev pub recovery_calls : OrderedMap Bytes → List LogEntry → List StoreCall
recovery_calls values committed =
    (clear_call ∷ open_call ∷ [])
    ++ (puts_of values ++ (all_calls committed ++ checkpoint_call ∷ []))

abbrev pub install_calls : OrderedMap Bytes → List StoreCall
install_calls values = (clear_call ∷ open_call ∷ []) ++ (puts_of values ++ checkpoint_call ∷ [])

on_map-recovery_calls :
    (values old : OrderedMap Bytes) (committed : List LogEntry)
    → IsSorted values
    → on_map (recovery_calls values committed) old ≡ interpret_all committed values
on_map-recovery_calls values old committed s =
    on_map-append (puts_of values) (all_calls committed ++ checkpoint_call ∷ []) []
    ∙ ap (on_map (all_calls committed ++ checkpoint_call ∷ [])) (on_map-puts_of [] values s)
    ∙ on_map-append (all_calls committed) (checkpoint_call ∷ []) values
    ∙ on_map-all_calls committed values

on_map-install_calls :
    (values old : OrderedMap Bytes) → IsSorted values → on_map (install_calls values) old ≡ values
on_map-install_calls values old s =
    on_map-append (puts_of values) (checkpoint_call ∷ []) [] ∙ on_map-puts_of [] values s

module _ {D : Type 0} (S : DurableStore D) where
  recover_from :
      (s : Types.Snapshot) (values : OrderedMap Bytes) (committed : List LogEntry) (m : Machine D)
      → restore_map s.payload [] ≡ (ok tt, values)
      → AllAccepted committed
      → Performs S
          (recover S (some s) committed m)
          (perform_all S (recovery_calls values committed) m.store)
          (interpret_all committed values)
  unfolding recover load_snapshot
  recover_from s values committed m r h =
      Performs-seq S _ _ (clear_call ∷ open_call ∷ [])
        (puts_of values ++ (all_calls committed ++ checkpoint_call ∷ [])) m.store m.values
        (interpret_all committed values) (reset_storage-Performs S m)
        λ m1 _ o1.
          Performs-seq S _ _ (puts_of values) (all_calls committed ++ checkpoint_call ∷ []) m1.store
            values (interpret_all committed values)
            (load_payload-Performs S s.payload values (record m1 { values = [] }) r refl o1)
            λ m2 v2 o2.
              Performs-seq S _ (apply_commands S committed m2) (all_calls committed)
                (checkpoint_call ∷ []) m2.store (interpret_all committed values)
                (interpret_all committed values)
                (rw (← v2) (apply_commands-Performs S committed m2 h o2))
                λ m3 v3 o3. rw (← v3) (checkpoint-Performs S m3 o3)

  install_from :
      (payload : Bytes) (values : OrderedMap Bytes) (m : Machine D)
      → restore_map payload [] ≡ (ok tt, values)
      → Performs S
          (install_snapshot S payload m)
          (perform_all S (install_calls values) m.store)
          values
  unfolding install_snapshot
  install_from payload values m r =
      Performs-seq S _ _ (clear_call ∷ open_call ∷ []) (puts_of values ++ checkpoint_call ∷ [])
        m.store m.values values (reset_storage-Performs S m)
        λ m1 _ o1.
          Performs-seq S _ _ (puts_of values) (checkpoint_call ∷ []) m1.store values values
            (load_payload-Performs S payload values (record m1 { values = [] }) r refl o1)
            λ m2 v2 o2. rw (← v2) (checkpoint-Performs S m2 o2)

  -- A machine whose map comes from a log of accepted entries, with fewer than 2^64 keys, creates a
  -- snapshot without an exception; whatever the store does, a machine that recovers from it and
  -- the accepted entries behind it makes the calls of recovery_calls in order, up to the first
  -- that throws, leaves the store as these leave it and has their outcome, and if all return it
  -- has the map of the whole log, which the calls make of any ordered map too; the same holds of
  -- an install of the snapshot, with install_calls and the map it was created from.
  pub recover-create_snapshot :
      (before committed : List LogEntry) (created : Machine D) (index term : ℕ) (m : Machine D)
      → created.values ≡ interpret_all before []
      → AllAccepted before
      → AllAccepted committed
      → length created.values < word
      → (payload : Bytes) × (create_snapshot S created ≡ ok payload)
        × Performs S
            (recover S
              (some (record {
                last_included_index = index;
                last_included_term = term;
                payload = payload;
              }))
              committed
              m)
            (perform_all S (recovery_calls created.values committed) m.store)
            (interpret_all (before ++ committed) [])
        × ((old : OrderedMap Bytes)
            → on_map (recovery_calls created.values committed) old
              ≡ interpret_all (before ++ committed) [])
        × Performs S
            (install_snapshot S payload m)
            (perform_all S (install_calls created.values) m.store)
            created.values
        × ((old : OrderedMap Bytes) → on_map (install_calls created.values) old ≡ created.values)
  unfolding create_snapshot
  recover-create_snapshot before committed created index term m e hb hc n =
      let g : IsMap created.values = rw e (interpret_all-IsMap before [] hb (tt, tt)) in
      let whole : interpret_all (before ++ committed) [] ≡ interpret_all committed created.values =
        interpret_all-append before committed [] ∙ ap (interpret_all committed) (sym e) in
      let (payload, p, q) = restore_map-encode_map created.values g.0 g.1 n in
      let s : Types.Snapshot = record {
        last_included_index = index;
        last_included_term = term;
        payload = payload;
      } in
      (
        payload,
        p,
        rw whole (recover_from s created.values committed m q hc),
        λ old. on_map-recovery_calls created.values old committed g.1 ∙ sym whole,
        install_from payload created.values m q,
        λ old. on_map-install_calls created.values old g.1,
      )
