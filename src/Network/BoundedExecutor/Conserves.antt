-- ===== src/Network/BoundedExecutor/Conserves.antt =====
-- No task of the executor (src/network/bounded_executor.cpp) is lost, made up or called twice.
use nebula_kv.Prelude.{
  ℕ, zero, suc, ◌+◌, ◌≤◌, ◌≡◌, refl, arith, Bool, true, false, List, [], ◌∷◌, ◌++◌, length,
  length-append, ◌==◌, if◌then◌else◌, Bool-cases, inl, inr, ap,
}
use nebula_kv.Prelude.Result.{ok}
use nebula_kv.Network.BoundedExecutor.{
  Worker, waiting, running, ran, counted, returned, BoundedExecutor, start_workers, make_executor,
  is_rejecting, try_submit, begin_shutdown, take_task, work, work_at, Action, submit, step, stop,
  act, run, accepted_by, accepted,
}

not_zero : (n : ℕ) → (suc n == 0) ≡ false
not_zero n = ground arith

module _ {ℓ} {T : Type ℓ} (p : T → Bool) where
  -- How many tasks of a list the test holds of.
  unfoldable pub count : List T → ℕ
  count [] = 0
  count (t ∷ ts) = let n = count ts in if p t then suc n else n

  pub count-append : (ts us : List T) → count (ts ++ us) ≡ count ts + count us
  unfolding count
  count-append [] us = omega arith
  count-append (t ∷ ts) us = ground (arith, count-append ts us)

  abbrev held : Worker T → ℕ
  held (running t) = count (t ∷ [])
  held _ = 0

  abbrev pub held_all : List (Worker T) → ℕ
  held_all [] = 0
  held_all (w ∷ ws) = held w + held_all ws

  -- The tasks that were called, that workers hold and that wait.
  abbrev pub known : ℕ → BoundedExecutor T → ℕ
  known n x = count x.calls + n + count x.tasks

  known-take_task :
      (ts : List T) (x : BoundedExecutor T)
      → x.tasks ≡ ts
      → known (held (take_task ts x).0) (take_task ts x).1 ≡ known 0 x
  unfolding count
  known-take_task [] x e = elim (Bool-cases x.stopping) [ inl q ↦ rw q refl | inr q ↦ rw q refl ]
  known-take_task (t ∷ ts) x e = ground (arith, ap count e)

  known-work :
      (w : Worker T) (x : BoundedExecutor T)
      → known (held (work w x).0) (work w x).1 ≡ known (held w) x
  unfolding work count
  known-work waiting x = known-take_task x.tasks x refl
  known-work (running t) x = ground arith
  known-work ran x = refl
  known-work counted x = refl
  known-work returned x = refl

  pub work_one :
      (w : Worker T) (n : ℕ) (x : BoundedExecutor T)
      → known (held (work w x).0 + n) (work w x).1 ≡ known (held w + n) x
  work_one w n x = omega (arith, known-work w x)

  pub known-work_at :
      (i : ℕ) (ws : List (Worker T)) (x : BoundedExecutor T)
      → known (held_all (work_at i ws x).0) (work_at i ws x).1 ≡ known (held_all ws) x
  unfolding work_at
  known-work_at i [] x = refl
  known-work_at zero (w ∷ ws) x = work_one w (held_all ws) x
  known-work_at (suc i) (w ∷ ws) x = omega (arith, known-work_at i ws x)

  pub known-submit :
      (t : T) (n : ℕ) (x : BoundedExecutor T)
      → known n (try_submit t x).0 ≡ known n x + count (accepted_by (submit t) x)
  unfolding try_submit count
  known-submit t n x = elim (Bool-cases (is_rejecting x)) [
    | inl q ↦ rw q (omega arith)
    | inr q ↦ rw q (omega (arith, count-append x.tasks (t ∷ [])))
  ]

  -- A shutdown that does not drain drops the tasks that wait.
  pub known-begin_shutdown :
      (drain : Bool) (n : ℕ) (x : BoundedExecutor T) → known n (begin_shutdown drain x) ≤ known n x
  unfolding begin_shutdown count
  known-begin_shutdown drain n x = ground arith

  known-act :
      (a : Action T) (ws : List (Worker T)) (x : BoundedExecutor T)
      → known (held_all (act a ws x).0) (act a ws x).1
        ≤ known (held_all ws) x + count (accepted_by a x)
  unfolding act count
  known-act (submit t) ws x = omega (arith, known-submit t (held_all ws) x)
  known-act (step i) ws x = omega (arith, known-work_at i ws x)
  known-act (stop drain) ws x = omega (arith, known-begin_shutdown drain (held_all ws) x)

  known-run :
      (actions : List (Action T)) (ws : List (Worker T)) (x : BoundedExecutor T)
      → known (held_all (run actions ws x).0) (run actions ws x).1
        ≤ known (held_all ws) x + count (accepted actions ws x)
  unfolding run accepted count
  known-run [] ws x = omega arith
  known-run (a ∷ actions) ws x =
      let (ws', x') = act a ws x in
      omega (
        arith,
        known-run actions ws' x',
        known-act a ws x,
        count-append (accepted_by a x) (accepted actions ws' x'),
      )

  pub held_all-start_workers : (n : ℕ) → held_all (start_workers n) ≡ 0
  held_all-start_workers zero = refl
  held_all-start_workers (suc n) = omega (arith, held_all-start_workers n)

module _ {ℓ} {T : Type ℓ} where
  -- Within the capacity, which no operation changes.
  abbrev Fits : ℕ → BoundedExecutor T → Type 0
  Fits c x = (x.queue_capacity ≡ c) × (length x.tasks ≤ c)

  take_task-Fits :
      (c : ℕ) (ts : List T) (x : BoundedExecutor T)
      → x.tasks ≡ ts
      → Fits c x
      → Fits c (take_task ts x).1
  take_task-Fits c [] x e f = f
  take_task-Fits c (t ∷ ts) x e f = ground (arith, ap length e)

  work-Fits : (c : ℕ) (w : Worker T) (x : BoundedExecutor T) → Fits c x → Fits c (work w x).1
  unfolding work
  work-Fits c waiting x f = take_task-Fits c x.tasks x refl f
  work-Fits c (running t) x f = f
  work-Fits c ran x f = f
  work-Fits c counted x f = f
  work-Fits c returned x f = f

  work_at-Fits :
      (c i : ℕ) (ws : List (Worker T)) (x : BoundedExecutor T)
      → Fits c x
      → Fits c (work_at i ws x).1
  unfolding work_at
  work_at-Fits c i [] x f = f
  work_at-Fits c zero (w ∷ ws) x f = work-Fits c w x f
  work_at-Fits c (suc i) (w ∷ ws) x f = work_at-Fits c i ws x f

  act-Fits :
      (c : ℕ) (a : Action T) (ws : List (Worker T)) (x : BoundedExecutor T)
      → Fits c x
      → Fits c (act a ws x).1
  unfolding act try_submit begin_shutdown
  act-Fits c (submit t) ws x f = ground (arith, length-append x.tasks (t ∷ []))
  act-Fits c (step i) ws x f = work_at-Fits c i ws x f
  act-Fits c (stop drain) ws x f = ground arith

  run-Fits :
      (c : ℕ) (actions : List (Action T)) (ws : List (Worker T)) (x : BoundedExecutor T)
      → Fits c x
      → Fits c (run actions ws x).1
  unfolding run
  run-Fits c [] ws x f = f
  run-Fits c (a ∷ actions) ws x f =
      let (ws', x') = act a ws x in run-Fits c actions ws' x' (act-Fits c a ws x f)

  abbrev pub fresh_executor : ℕ → BoundedExecutor T
  fresh_executor c = record {
    queue_capacity = c;
    tasks = [];
    accepting = true;
    stopping = false;
    drain_on_shutdown = true;
    active_tasks = 0;
    submitted_tasks = 0;
    completed_tasks = 0;
    rejected_tasks = 0;
    calls = [];
  }

  pub make_executor_ok :
      (n c : ℕ) → make_executor (suc n) (suc c) ≡ ok (start_workers (suc n), fresh_executor (suc c))
  unfolding make_executor
  make_executor_ok n c = rw (not_zero n, not_zero c) refl

  -- On an executor that was made with a number of workers and a capacity, both above 0, after any
  -- sequence of submissions, worker steps and shutdowns, no more tasks of any kind were called
  -- than accepted, and no more wait than the capacity.
  pub run-accepted :
      (worker_count queue_capacity : ℕ) (actions : List (Action T)) (p : T → Bool)
      → (ws : List (Worker T)) × (x : BoundedExecutor T) × (make_executor
            (suc worker_count)
            (suc queue_capacity)
          ≡ ok (ws, x))
        × (count p (run actions ws x).1.calls ≤ count p (accepted actions ws x))
        × (length (run actions ws x).1.tasks ≤ suc queue_capacity)
  unfolding count
  run-accepted worker_count queue_capacity actions p =
      let ws : List (Worker T) = start_workers (suc worker_count) in
      let x = fresh_executor (suc queue_capacity) in
      (
        ws,
        x,
        make_executor_ok worker_count queue_capacity,
        omega (arith, known-run p actions ws x, held_all-start_workers p (suc worker_count)),
        (run-Fits (suc queue_capacity) actions ws x (refl, omega arith)).1,
      )
