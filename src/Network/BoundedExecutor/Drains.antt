-- ===== src/Network/BoundedExecutor/Drains.antt =====
-- A shutdown of the executor (src/network/bounded_executor.cpp) that drains it.
use nebula_kv.Prelude.{
  ℕ, zero, suc, ◌+◌, ◌*◌, ◌<◌, ◌≤◌, ◌≡◌, refl, arith, true, false, List, [], ◌∷◌, length,
  Bool-cases, inl, inr, ap, ◌⊎◌,
}
use nebula_kv.Network.BoundedExecutor.{
  Worker, waiting, running, ran, counted, returned, BoundedExecutor, take_task, work, round, rounds,
  is_joined,
}

module _ {ℓ} {T : Type ℓ} where
  abbrev pub IsDraining : BoundedExecutor T → Type 0
  IsDraining x = (x.stopping ≡ true) × (x.drain_on_shutdown ≡ true)

  -- The steps that a worker takes before it waits again, or returns.
  abbrev pub weight : Worker T → ℕ
  weight waiting = 1
  weight (running t) = 4
  weight ran = 3
  weight counted = 2
  weight returned = 0

  abbrev pub weights : List (Worker T) → ℕ
  weights [] = 0
  weights (w ∷ ws) = weight w + weights ws

  -- At most this many steps are left.
  abbrev pub steps_left : List (Worker T) → BoundedExecutor T → ℕ
  steps_left ws x = weights ws + 4 * length x.tasks

  take_task-IsDraining :
      (ts : List T) (x : BoundedExecutor T) → IsDraining x → IsDraining (take_task ts x).1
  take_task-IsDraining [] x d = d
  take_task-IsDraining (t ∷ ts) x (d, e) = rw (d, e) (refl, refl)

  pub work-IsDraining :
      (w : Worker T) (x : BoundedExecutor T) → IsDraining x → IsDraining (work w x).1
  unfolding work
  work-IsDraining waiting x d = take_task-IsDraining x.tasks x d
  work-IsDraining (running t) x d = d
  work-IsDraining ran x d = d
  work-IsDraining counted x d = d
  work-IsDraining returned x d = d

  take_task_lt :
      (ts : List T) (x : BoundedExecutor T)
      → x.tasks ≡ ts
      → IsDraining x
      → weight (take_task ts x).0 + 4 * length (take_task ts x).1.tasks < 1 + 4 * length x.tasks
  take_task_lt [] x e (d, f) = rw d (omega arith)
  take_task_lt (t ∷ ts) x e (d, f) = rw (d, f) (omega (arith, ap length e))

  -- A worker that has not returned is a step nearer to it.
  work_lt :
      (w : Worker T) (x : BoundedExecutor T)
      → IsDraining x
      → (w ≡ returned)
        ⊎ (weight (work w x).0 + 4 * length (work w x).1.tasks < weight w + 4 * length x.tasks)
  unfolding work
  work_lt waiting x d = inr (take_task_lt x.tasks x refl d)
  work_lt (running t) x d = inr (omega arith)
  work_lt ran x d = inr (omega arith)
  work_lt counted x d = inr (omega arith)
  work_lt returned x d = inl refl

  work_le :
      (w : Worker T) (x : BoundedExecutor T)
      → IsDraining x
      → weight (work w x).0 + 4 * length (work w x).1.tasks ≤ weight w + 4 * length x.tasks
  unfolding work
  work_le w x d = elim (work_lt w x d) [ inl e ↦ rw e (omega arith) | inr h ↦ omega (arith, h) ]

  round_le :
      (ws : List (Worker T)) (x : BoundedExecutor T)
      → IsDraining x
      → steps_left (round ws x).0 (round ws x).1 ≤ steps_left ws x
  unfolding round
  round_le [] x d = omega arith
  round_le (w ∷ ws) x d =
      omega (arith, work_le w x d, round_le ws (work w x).1 (work-IsDraining w x d))

  round_behind :
      (w : Worker T) (ws : List (Worker T)) (x : BoundedExecutor T)
      → IsDraining x
      → weight (work w x).0 + 4 * length (work w x).1.tasks < weight w + 4 * length x.tasks
      → steps_left (round (w ∷ ws) x).0 (round (w ∷ ws) x).1 < steps_left (w ∷ ws) x
  unfolding round
  round_behind w ws x d h = omega (arith, h, round_le ws (work w x).1 (work-IsDraining w x d))

  -- While a worker is not joined, a round of steps is progress.
  round_lt :
      (ws : List (Worker T)) (x : BoundedExecutor T)
      → IsDraining x
      → is_joined ws ≡ false
      → steps_left (round ws x).0 (round ws x).1 < steps_left ws x
  unfolding round work
  round_lt [] x d j = absurd (cc j)
  round_lt (returned ∷ ws) x d j = omega (arith, round_lt ws x d j)
  round_lt (waiting ∷ ws) x d j = round_behind waiting ws x d (take_task_lt x.tasks x refl d)
  round_lt (running t ∷ ws) x d j = round_behind (running t) ws x d (omega arith)
  round_lt (ran ∷ ws) x d j = round_behind ran ws x d (omega arith)
  round_lt (counted ∷ ws) x d j = round_behind counted ws x d (omega arith)

  pub round-IsDraining :
      (ws : List (Worker T)) (x : BoundedExecutor T) → IsDraining x → IsDraining (round ws x).1
  unfolding round
  round-IsDraining [] x d = d
  round-IsDraining (w ∷ ws) x d = round-IsDraining ws (work w x).1 (work-IsDraining w x d)

  round_joined :
      (ws : List (Worker T)) (x : BoundedExecutor T) → is_joined ws ≡ true → round ws x ≡ (ws, x)
  unfolding round work
  round_joined [] x j = refl
  round_joined (returned ∷ ws) x j = rw (round_joined ws x j) refl
  round_joined (waiting ∷ ws) x j = absurd (cc j)
  round_joined (running t ∷ ws) x j = absurd (cc j)
  round_joined (ran ∷ ws) x j = absurd (cc j)
  round_joined (counted ∷ ws) x j = absurd (cc j)

  rounds_joined :
      (n : ℕ) (ws : List (Worker T)) (x : BoundedExecutor T)
      → is_joined ws ≡ true
      → rounds n ws x ≡ (ws, x)
  unfolding rounds
  rounds_joined zero ws x j = refl
  rounds_joined (suc n) ws x j = rw (round_joined ws x j) (rounds_joined n ws x j)

  -- As many rounds as there are steps left join all workers.
  pub rounds_join :
      (n : ℕ) (ws : List (Worker T)) (x : BoundedExecutor T)
      → IsDraining x
      → steps_left ws x ≤ n
      → is_joined (rounds n ws x).0 ≡ true
  unfolding rounds
  rounds_join zero ws x d h = elim (Bool-cases (is_joined ws)) [
    | inl j ↦ j
    | inr j ↦ absurd (omega (arith, h, round_lt ws x d j))
  ]
  rounds_join (suc n) ws x d h = elim (Bool-cases (is_joined ws)) [
    | inl j ↦ rw (rounds_joined (suc n) ws x j) j
    | inr j ↦
        rounds_join n (round ws x).0 (round ws x).1 (round-IsDraining ws x d)
          (omega (arith, h, round_lt ws x d j))
  ]
