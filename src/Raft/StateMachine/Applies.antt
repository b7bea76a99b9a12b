-- ===== src/Raft/StateMachine/Applies.antt =====
-- The calls that the state machine (src/raft/state_machine.cpp) makes of its store, whatever the store
-- does: it stops at the first one that throws.
use nebula_kv.Prelude.{◌≡◌, refl, subst, Bytes, Bool, true, false, List, [], ◌∷◌, ◌++◌}
use nebula_kv.Prelude.Result.{Result, ok, throw}
use nebula_kv.Prelude.Exec.{Exec, resume}
use nebula_kv.Prelude.OrderedMap.{OrderedMap, insert_or_assign, erase}
use nebula_kv.Storage.Validation.{IsKey, IsValue, validate_key-IsKey, validate_value-IsValue}
use nebula_kv.Raft.Types.{Command, CommandType, noop, put, delete, LogEntry}
use nebula_kv.Raft.StateMachine.{
  DurableStore, Machine, restore_map, on_store, open_storage, reset_storage, put_all, apply_command,
  apply_commands, load_payload,
}

-- What a command does to the map.
abbrev pub interpret : Command → OrderedMap Bytes → OrderedMap Bytes
interpret c values = elim c.type [
  | noop ↦ values
  | put ↦ insert_or_assign c.key c.value values
  | delete ↦ erase c.key values
]

abbrev pub interpret_all : List LogEntry → OrderedMap Bytes → OrderedMap Bytes
interpret_all [] values = values
interpret_all (e ∷ es) values = interpret_all es (interpret e.command values)

-- Within the limits that the store checks.
abbrev pub Accepted : Command → Type 0
Accepted c = elim c.type [
  | noop ↦ Unit
  | put ↦ IsKey c.key × IsValue c.value
  | delete ↦ IsKey c.key
]

abbrev pub AllAccepted : List LogEntry → Type 0
AllAccepted [] = Unit
AllAccepted (e ∷ es) = Accepted e.command × AllAccepted es

-- The calls of the store that change it.
pub data StoreCall : Type 0 where
  clear_call open_call checkpoint_call : StoreCall
  put_call : Bytes → Bytes → StoreCall
  remove_call : Bytes → StoreCall

-- What they do to an ordered map.
abbrev pub on_map : List StoreCall → OrderedMap Bytes → OrderedMap Bytes
on_map [] values = values
on_map (clear_call ∷ calls) values = on_map calls []
on_map (open_call ∷ calls) values = on_map calls values
on_map (checkpoint_call ∷ calls) values = on_map calls values
on_map (put_call key value ∷ calls) values = on_map calls (insert_or_assign key value values)
on_map (remove_call key ∷ calls) values = on_map calls (erase key values)

abbrev pub calls_of : Command → List StoreCall
calls_of c = elim c.type [
  | noop ↦ []
  | put ↦ put_call c.key c.value ∷ []
  | delete ↦ remove_call c.key ∷ []
]

abbrev pub all_calls : List LogEntry → List StoreCall
all_calls [] = []
all_calls (e ∷ es) = calls_of e.command ++ all_calls es

abbrev pub puts_of : OrderedMap Bytes → List StoreCall
puts_of [] = []
puts_of ((key, value) ∷ values) = put_call key value ∷ puts_of values

module _ {D : Type 0} (S : DurableStore D) where
  abbrev pub perform : StoreCall → Exec D (Unit {0})
  perform clear_call d = S.clear d
  perform open_call d = S.open_store d
  perform checkpoint_call d = S.checkpoint d
  perform (put_call key value) d = S.put key value d
  perform (remove_call key) d = resume (λ _ d'. (ok tt, d')) (S.remove key d)

  -- The calls one after the other, up to the first that throws.
  abbrev pub perform_all : List StoreCall → Exec D (Unit {0})
  perform_all [] d = (ok tt, d)
  perform_all (c ∷ calls) d = resume (λ _. perform_all calls) (perform c d)

  resume_again :
      (calls more : List StoreCall) (x : Result (Unit {0}) × D)
      → ((d : D)
          → perform_all (calls ++ more) d ≡ resume (λ _. perform_all more) (perform_all calls d))
      → resume (λ _. perform_all (calls ++ more)) x
        ≡ resume (λ _. perform_all more) (resume (λ _. perform_all calls) x)
  resume_again calls more (throw e, d) h = refl
  resume_again calls more (ok u, d) h = h d

  perform_all-append :
      (calls more : List StoreCall) (d : D)
      → perform_all (calls ++ more) d ≡ resume (λ _. perform_all more) (perform_all calls d)
  perform_all-append [] more d = refl
  perform_all-append (c ∷ calls) more d =
      resume_again calls more (perform c d) (perform_all-append calls more)

  -- The machine's method did to the store what the calls do, `y`, with the same outcome, and where they
  -- all return it has this map.
  pub record Performs (x : Result (Unit {0}) × Machine D) (y : Result (Unit {0}) × D)
      (values : OrderedMap Bytes) : Type 0 where
    pub outcome : x.0 ≡ y.0
    pub store : x.1.store ≡ y.1
    pub holds : x.0 ≡ ok tt → x.1.values ≡ values
    pub opened : x.0 ≡ ok tt → x.1.is_open ≡ true

  seq_parts :
      (f : Exec (Machine D) (Unit {0})) (x : Result (Unit {0}) × Machine D)
      (y : Result (Unit {0}) × D) (more : List StoreCall) (v w : OrderedMap Bytes)
      → Performs x y v
      → ((m : Machine D)
          → m.values ≡ v
          → m.is_open ≡ true
          → Performs (f m) (perform_all more m.store) w)
      → Performs (resume (λ _. f) x) (resume (λ _. perform_all more) y) w
  seq_parts f (throw e, m) (throw e', d) more v w p h = record {
    outcome = p.outcome;
    store = p.store;
    holds = λ q. absurd (cc q);
    opened = λ q. absurd (cc q);
  }
  seq_parts f (throw e, m) (ok u, d) more v w p h = absurd (cc (p.outcome))
  seq_parts f (ok u, m) (throw e, d) more v w p h = absurd (cc (p.outcome))
  seq_parts f (ok u, m) (ok u', d) more v w p h =
      rw (← p.store) (h m (p.holds refl) (p.opened refl))

  -- Two methods in a row.
  pub Performs-seq :
      (f : Exec (Machine D) (Unit {0})) (x : Result (Unit {0}) × Machine D)
      (calls more : List StoreCall) (d : D) (v w : OrderedMap Bytes)
      → Performs x (perform_all calls d) v
      → ((m : Machine D)
          → m.values ≡ v
          → m.is_open ≡ true
          → Performs (f m) (perform_all more m.store) w)
      → Performs (resume (λ _. f) x) (perform_all (calls ++ more) d) w
  Performs-seq f x calls more d v w p h =
      rw (perform_all-append calls more d) (seq_parts f x (perform_all calls d) more v w p h)

  -- A call of the store behind which the map changes.
  after_call :
      {A : Type 0} (x : Result A × D) (m : Machine D) (g : OrderedMap Bytes → OrderedMap Bytes)
      → m.is_open ≡ true
      → Performs
          (resume
            (λ _ (m' : Machine D). (ok tt, record m' { values = g m'.values }))
            (x.0, record m { store = x.1 }))
          (resume (λ _ d. (ok tt, d)) x)
          (g m.values)
  after_call (throw e, d) m g o = record {
    outcome = refl;
    store = refl;
    holds = λ q. absurd (cc q);
    opened = λ q. absurd (cc q);
  }
  after_call (ok u, d) m g o = record {
    outcome = refl;
    store = refl;
    holds = λ q. refl;
    opened = λ q. o;
  }

  finished :
      (x : Result Bool × D)
      → resume (λ (_ : Unit {0}). perform_all []) (resume (λ _ d. (ok tt, d)) x)
        ≡ resume (λ _ d. (ok tt, d)) x
  finished (throw e, d) = refl
  finished (ok b, d) = refl

  apply_parts :
      (t : CommandType) (k v : Bytes) (m : Machine D)
      → Accepted (record { type = t; key = k; value = v })
      → m.is_open ≡ true
      → Performs
          (apply_command S (record { type = t; key = k; value = v }) m)
          (perform_all (calls_of (record { type = t; key = k; value = v })) m.store)
          (interpret (record { type = t; key = k; value = v }) m.values)
  unfolding apply_command
  apply_parts noop k v m h o = record {
    outcome = refl;
    store = refl;
    holds = λ q. refl;
    opened = λ q. o;
  }
  apply_parts put k v m (hk, hv) o =
      rw (validate_key-IsKey k hk, validate_value-IsValue v hv)
        (after_call (S.put k v m.store) m (insert_or_assign k v) o)
  apply_parts delete k v m hk o =
      rw (validate_key-IsKey k hk, finished (S.remove k m.store))
        (after_call (S.remove k m.store) m (erase k) o)

  pub apply_commands-Performs :
      (es : List LogEntry) (m : Machine D)
      → AllAccepted es
      → m.is_open ≡ true
      → Performs
          (apply_commands S es m)
          (perform_all (all_calls es) m.store)
          (interpret_all es m.values)
  unfolding apply_commands
  apply_commands-Performs [] m h o = record {
    outcome = refl;
    store = refl;
    holds = λ q. refl;
    opened = λ q. o;
  }
  apply_commands-Performs (e ∷ es) m (h, hs) o =
      Performs-seq _ _ (calls_of e.command) (all_calls es) m.store (interpret e.command m.values)
        (interpret_all (e ∷ es) m.values)
        (apply_parts e.command.type e.command.key e.command.value m h o)
        λ m' v o'.
          subst
            (λ w.
              Performs (apply_commands S es m') (perform_all (all_calls es) m'.store)
                (interpret_all es w))
            v (apply_commands-Performs es m' hs o')

  after_put :
      (x : Result (Unit {0}) × D) (values : OrderedMap Bytes) (m : Machine D)
      → ((m' : Machine D)
          → m'.is_open ≡ true
          → Performs (put_all S values m') (perform_all (puts_of values) m'.store) m'.values)
      → m.is_open ≡ true
      → Performs
          (resume (λ _. put_all S values) (x.0, record m { store = x.1 }))
          (resume (λ _. perform_all (puts_of values)) x)
          m.values
  after_put (throw e, d) values m h o = record {
    outcome = refl;
    store = refl;
    holds = λ q. absurd (cc q);
    opened = λ q. absurd (cc q);
  }
  after_put (ok u, d) values m h o = h (record m { store = d }) o

  pub put_all-Performs :
      (values : OrderedMap Bytes) (m : Machine D)
      → m.is_open ≡ true
      → Performs (put_all S values m) (perform_all (puts_of values) m.store) m.values
  unfolding put_all
  put_all-Performs [] m o = record {
    outcome = refl;
    store = refl;
    holds = λ q. refl;
    opened = λ q. o;
  }
  put_all-Performs ((k, v) ∷ values) m o =
      after_put (S.put k v m.store) values m (put_all-Performs values) o

  -- A payload that restores to a map is loaded into an empty machine.
  pub load_payload-Performs :
      (payload : Bytes) (values : OrderedMap Bytes) (m : Machine D)
      → restore_map payload [] ≡ (ok tt, values)
      → m.values ≡ []
      → m.is_open ≡ true
      → Performs (load_payload S payload m) (perform_all (puts_of values) m.store) values
  unfolding load_payload
  load_payload-Performs payload values m r e o =
      rw (e, r) (put_all-Performs values (record m { values = values }) o)

  after_open :
      (x : Result (Unit {0}) × D) (m : Machine D)
      → Performs
          (resume
            (λ _ (m' : Machine D). (ok tt, record m' { is_open = true }))
            (x.0, record m { is_open = false; store = x.1 }))
          (resume (λ _. perform_all []) x)
          m.values
  after_open (throw e, d) m = record {
    outcome = refl;
    store = refl;
    holds = λ q. absurd (cc q);
    opened = λ q. absurd (cc q);
  }
  after_open (ok u, d) m = record {
    outcome = refl;
    store = refl;
    holds = λ q. refl;
    opened = λ q. refl;
  }

  after_clear :
      (x : Result (Unit {0}) × D) (m : Machine D)
      → Performs
          (resume (λ _. open_storage S) (x.0, record m { is_open = false; store = x.1 }))
          (resume (λ _. perform_all (open_call ∷ [])) x)
          m.values
  unfolding open_storage
  after_clear (throw e, d) m = record {
    outcome = refl;
    store = refl;
    holds = λ q. absurd (cc q);
    opened = λ q. absurd (cc q);
  }
  after_clear (ok u, d) m = after_open (S.open_store d) m

  pub reset_storage-Performs :
      (m : Machine D)
      → Performs (reset_storage S m) (perform_all (clear_call ∷ open_call ∷ []) m.store) m.values
  unfolding reset_storage
  reset_storage-Performs m = after_clear (S.clear m.store) m

  after_checkpoint :
      (x : Result (Unit {0}) × D) (m : Machine D)
      → m.is_open ≡ true
      → Performs (x.0, record m { store = x.1 }) (resume (λ _. perform_all []) x) m.values
  after_checkpoint (throw e, d) m o = record {
    outcome = refl;
    store = refl;
    holds = λ q. absurd (cc q);
    opened = λ q. absurd (cc q);
  }
  after_checkpoint (ok u, d) m o = record {
    outcome = refl;
    store = refl;
    holds = λ q. refl;
    opened = λ q. o;
  }

  pub checkpoint-Performs :
      (m : Machine D)
      → m.is_open ≡ true
      → Performs (on_store S S.checkpoint m) (perform_all (checkpoint_call ∷ []) m.store) m.values
  checkpoint-Performs m o = after_checkpoint (S.checkpoint m.store) m o
