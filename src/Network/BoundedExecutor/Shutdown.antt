-- ===== src/Network/BoundedExecutor/Shutdown.antt =====
-- A shutdown of the executor (src/network/bounded_executor.cpp) that drains it, to its end.
use nebula_kv.Prelude.{
  ℕ, zero, suc, ◌+◌, ◌<◌, ◌≡◌, refl, arith, Bool, true, false, List, [], ◌∷◌, length, ap, ◌∙◌,
}
use nebula_kv.Prelude.Result.{ok}
use nebula_kv.Network.BoundedExecutor.{
  Worker, waiting, running, ran, counted, returned, BoundedExecutor, start_workers, make_executor,
  try_submit, begin_shutdown, take_task, work, work_at, round, rounds, is_joined, Action, submit,
  step, stop, act, run, accepted_by, accepted,
}
use nebula_kv.Network.BoundedExecutor.Conserves.{
  count, count-append, held_all, known, work_one, known-work_at, known-submit,
  held_all-start_workers, fresh_executor, make_executor_ok,
}
use nebula_kv.Network.BoundedExecutor.Drains.{IsDraining, weight, steps_left, rounds_join}
use nebula_kv.Network.BoundedExecutor.Empties.{AllSawEmpty, rounds_empty}

module _ {ℓ} {T : Type ℓ} where
  -- Before a shutdown no worker returns.
  abbrev AllGo : List (Worker T) → Type 0
  AllGo [] = Unit
  AllGo (w ∷ ws) = (0 < weight w) × AllGo ws

  abbrev IsOpen : List (Worker T) → BoundedExecutor T → Type 0
  IsOpen ws x = (x.stopping ≡ false) × AllGo ws × (0 < length ws)

  take_task_goes :
      (ts : List T) (x : BoundedExecutor T)
      → x.stopping ≡ false
      → ((take_task ts x).1.stopping ≡ false) × (0 < weight (take_task ts x).0)
  take_task_goes [] x s = (s, rw s (omega arith))
  take_task_goes (t ∷ ts) x s = rw s (refl, omega arith)

  work_goes :
      (w : Worker T) (x : BoundedExecutor T)
      → x.stopping ≡ false
      → 0 < weight w
      → ((work w x).1.stopping ≡ false) × (0 < weight (work w x).0)
  unfolding work
  work_goes waiting x s g = take_task_goes x.tasks x s
  work_goes (running t) x s g = (s, omega arith)
  work_goes ran x s g = (s, omega arith)
  work_goes counted x s g = (s, omega arith)
  work_goes returned x s g = (s, g)

  work_at-IsOpen :
      (i : ℕ) (ws : List (Worker T)) (x : BoundedExecutor T)
      → x.stopping ≡ false
      → AllGo ws
      → ((work_at i ws x).1.stopping ≡ false)
        × AllGo (work_at i ws x).0
        × (length (work_at i ws x).0 ≡ length ws)
  unfolding work_at
  work_at-IsOpen i [] x s g = (s, tt, refl)
  work_at-IsOpen zero (w ∷ ws) x s g = let (s', h) = work_goes w x s g.0 in (s', (h, g.1), refl)
  work_at-IsOpen (suc i) (w ∷ ws) x s g =
      let (s', h, e) = work_at-IsOpen i ws x s g.1 in (s', (g.0, h), ap suc e)

  unfoldable pub has_no_stop : List (Action T) → Bool
  has_no_stop [] = true
  has_no_stop (submit t ∷ actions) = has_no_stop actions
  has_no_stop (step i ∷ actions) = has_no_stop actions
  has_no_stop (stop drain ∷ actions) = false

  run-IsOpen :
      (actions : List (Action T)) (ws : List (Worker T)) (x : BoundedExecutor T)
      → has_no_stop actions ≡ true
      → IsOpen ws x
      → IsOpen (run actions ws x).0 (run actions ws x).1
  unfolding run act has_no_stop try_submit
  run-IsOpen [] ws x n o = o
  run-IsOpen (submit t ∷ actions) ws x n (s, g, l) =
      run-IsOpen actions ws (try_submit t x).0 n (ground arith, g, l)
  run-IsOpen (step i ∷ actions) ws x n (s, g, l) =
      let (s', h, e) = work_at-IsOpen i ws x s g in
      run-IsOpen actions (work_at i ws x).0 (work_at i ws x).1 n (s', h, omega (arith, e, l))
  run-IsOpen (stop drain ∷ actions) ws x n o = absurd (cc n)

  run_everything :
      (p : T → Bool) (actions : List (Action T)) (ws : List (Worker T)) (x : BoundedExecutor T)
      → has_no_stop actions ≡ true
      → known p (held_all p (run actions ws x).0) (run actions ws x).1
        ≡ known p (held_all p ws) x + count p (accepted actions ws x)
  unfolding run act accepted has_no_stop count
  run_everything p [] ws x n = omega arith
  run_everything p (submit t ∷ actions) ws x n =
      let x' = (try_submit t x).0 in
      omega (
        arith,
        run_everything p actions ws x' n,
        known-submit p t (held_all p ws) x,
        count-append p (accepted_by (submit t) x) (accepted actions ws x'),
      )
  run_everything p (step i ∷ actions) ws x n =
      let (ws', x') = work_at i ws x in
      omega (arith, run_everything p actions ws' x' n, known-work_at p i ws x)
  run_everything p (stop drain ∷ actions) ws x n = absurd (cc n)

  known-round :
      (p : T → Bool) (ws : List (Worker T)) (x : BoundedExecutor T)
      → known p (held_all p (round ws x).0) (round ws x).1 ≡ known p (held_all p ws) x
  unfolding round
  known-round p [] x = refl
  known-round p (w ∷ ws) x =
      omega (arith, work_one p w (held_all p ws) x, known-round p ws (work w x).1)

  known-rounds :
      (p : T → Bool) (n : ℕ) (ws : List (Worker T)) (x : BoundedExecutor T)
      → known p (held_all p (rounds n ws x).0) (rounds n ws x).1 ≡ known p (held_all p ws) x
  unfolding rounds
  known-rounds p zero ws x = refl
  known-rounds p (suc n) ws x = known-rounds p n (round ws x).0 (round ws x).1 ∙ known-round p ws x

  joined_held : (p : T → Bool) (ws : List (Worker T)) → is_joined ws ≡ true → held_all p ws ≡ 0
  joined_held p [] j = refl
  joined_held p (returned ∷ ws) j = omega (arith, joined_held p ws j)
  joined_held p (waiting ∷ ws) j = absurd (cc j)
  joined_held p (running t ∷ ws) j = absurd (cc j)
  joined_held p (ran ∷ ws) j = absurd (cc j)
  joined_held p (counted ∷ ws) j = absurd (cc j)

  begin_shutdown-IsDraining :
      (x : BoundedExecutor T)
      → x.stopping ≡ false
      → IsDraining (begin_shutdown true x)
        × ((begin_shutdown true x).tasks ≡ x.tasks)
        × ((begin_shutdown true x).calls ≡ x.calls)
  unfolding begin_shutdown
  begin_shutdown-IsDraining x s = rw s ((refl, refl), refl, refl)

  going_saw : (ws : List (Worker T)) (x : BoundedExecutor T) → AllGo ws → AllSawEmpty ws x
  going_saw [] x g = tt
  going_saw (waiting ∷ ws) x g = (tt, going_saw ws x g.1)
  going_saw (running t ∷ ws) x g = (tt, going_saw ws x g.1)
  going_saw (ran ∷ ws) x g = (tt, going_saw ws x g.1)
  going_saw (counted ∷ ws) x g = (tt, going_saw ws x g.1)
  going_saw (returned ∷ ws) x g = absurd (omega (arith, g.0))

  -- The end of a shutdown with `drain` of an open executor.
  drain_all :
      (p : T → Bool) (ws : List (Worker T)) (x : BoundedExecutor T)
      → IsOpen ws x
      → let x' = begin_shutdown true x in
        let (joined, y) = rounds (steps_left ws x') ws x' in
        (is_joined joined ≡ true) × (y.tasks ≡ []) × (count p y.calls ≡ known p (held_all p ws) x)
  unfolding count
  drain_all p ws x (s, g, l) =
      let (d, e, f) = begin_shutdown-IsDraining x s in
      let x' = begin_shutdown true x in
      let n = steps_left ws x' in
      let j = rounds_join n ws x' d (omega arith) in
      let r = rounds_empty n ws x' d (going_saw ws x' g) l j in
      (
        j,
        r,
        omega (
          arith,
          known-rounds p n ws x',
          joined_held p (rounds n ws x').0 j,
          ap (count p) r,
          ap (count p) e,
          ap (count p) f,
        ),
      )

start-AllGo {ℓ} : (T : Type ℓ) (n : ℕ) → AllGo (start_workers {T = T} n)
start-AllGo T zero = tt
start-AllGo T (suc n) = (omega arith, start-AllGo T n)

module _ {ℓ} {T : Type ℓ} where
  -- On an executor that was made with a number of workers and a capacity, both above 0, after any
  -- sequence of submissions and worker steps, a shutdown that drains ends: after steps_left turns
  -- of every worker all have returned, no task waits, and each accepted task was called as often
  -- as it was accepted.
  pub rounds-begin_shutdown :
      (worker_count queue_capacity : ℕ) (actions : List (Action T)) (p : T → Bool)
      → has_no_stop actions ≡ true
      → (ws : List (Worker T)) × (x : BoundedExecutor T) × (make_executor
            (suc worker_count)
            (suc queue_capacity)
          ≡ ok (ws, x))
        × (let (ws1, x1) = run actions ws x in
            let x2 = begin_shutdown true x1 in
            let (joined, y) = rounds (steps_left ws1 x2) ws1 x2 in
            (is_joined joined ≡ true)
            × (y.tasks ≡ [])
            × (count p y.calls ≡ count p (accepted actions ws x)))
  unfolding count
  rounds-begin_shutdown worker_count queue_capacity actions p n =
      let ws : List (Worker T) = start_workers (suc worker_count) in
      let x = fresh_executor (suc queue_capacity) in
      let o = run-IsOpen actions ws x n (refl, start-AllGo T (suc worker_count), omega arith) in
      let (j, e, k) = drain_all p (run actions ws x).0 (run actions ws x).1 o in
      (
        ws,
        x,
        make_executor_ok worker_count queue_capacity,
        (
          j,
          e,
          omega (
            arith,
            k,
            run_everything p actions ws x n,
            held_all-start_workers p (suc worker_count),
          ),
        ),
      )
