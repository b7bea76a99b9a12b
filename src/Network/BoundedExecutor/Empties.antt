-- ===== src/Network/BoundedExecutor/Empties.antt =====
-- The queue of the executor (src/network/bounded_executor.cpp) when its workers have returned.
use nebula_kv.Prelude.{ℕ, zero, suc, ◌<◌, ◌≡◌, refl, arith, true, List, [], ◌∷◌, length, ap}
use nebula_kv.Network.BoundedExecutor.{
  Worker, waiting, running, ran, counted, returned, BoundedExecutor, take_task, work, round, rounds,
  is_joined,
}
use nebula_kv.Network.BoundedExecutor.Drains.{IsDraining, work-IsDraining, round-IsDraining}

module _ {ℓ} {T : Type ℓ} where
  -- A worker that has returned saw an empty queue.
  abbrev pub SawEmpty : Worker T → BoundedExecutor T → Type ℓ
  SawEmpty returned x = x.tasks ≡ []
  SawEmpty _ x = Unit

  take_task_empty :
      (ts : List T) (x : BoundedExecutor T)
      → x.tasks ≡ ts
      → x.tasks ≡ []
      → (take_task ts x).1.tasks ≡ []
  take_task_empty [] x e h = h
  take_task_empty (t ∷ ts) x e h = absurd (cc (e, h))

  work_empty : (w : Worker T) (x : BoundedExecutor T) → x.tasks ≡ [] → (work w x).1.tasks ≡ []
  unfolding work
  work_empty waiting x e = take_task_empty x.tasks x refl e
  work_empty (running t) x e = e
  work_empty ran x e = e
  work_empty counted x e = e
  work_empty returned x e = e

  work_saw : (v w : Worker T) (x : BoundedExecutor T) → SawEmpty v x → SawEmpty v (work w x).1
  work_saw returned w x h = work_empty w x h
  work_saw waiting w x h = tt
  work_saw (running t) w x h = tt
  work_saw ran w x h = tt
  work_saw counted w x h = tt

  take_task_saw :
      (ts : List T) (x : BoundedExecutor T)
      → x.tasks ≡ ts
      → IsDraining x
      → SawEmpty (take_task ts x).0 (take_task ts x).1
  take_task_saw [] x e (d, f) = rw d e
  take_task_saw (t ∷ ts) x e (d, f) = rw (d, f) tt

  work-SawEmpty :
      (w : Worker T) (x : BoundedExecutor T)
      → IsDraining x
      → SawEmpty w x
      → SawEmpty (work w x).0 (work w x).1
  unfolding work
  work-SawEmpty waiting x d h = take_task_saw x.tasks x refl d
  work-SawEmpty (running t) x d h = tt
  work-SawEmpty ran x d h = tt
  work-SawEmpty counted x d h = tt
  work-SawEmpty returned x d h = h

  abbrev pub AllSawEmpty : List (Worker T) → BoundedExecutor T → Type ℓ
  AllSawEmpty [] x = Unit
  AllSawEmpty (w ∷ ws) x = SawEmpty w x × AllSawEmpty ws x

  work_all_saw :
      (vs : List (Worker T)) (w : Worker T) (x : BoundedExecutor T)
      → AllSawEmpty vs x
      → AllSawEmpty vs (work w x).1
  work_all_saw [] w x h = tt
  work_all_saw (v ∷ vs) w x h = (work_saw v w x h.0, work_all_saw vs w x h.1)

  round_saw :
      (v : Worker T) (ws : List (Worker T)) (x : BoundedExecutor T)
      → SawEmpty v x
      → SawEmpty v (round ws x).1
  unfolding round
  round_saw v [] x h = h
  round_saw v (w ∷ ws) x h = round_saw v ws (work w x).1 (work_saw v w x h)

  round-AllSawEmpty :
      (ws : List (Worker T)) (x : BoundedExecutor T)
      → IsDraining x
      → AllSawEmpty ws x
      → AllSawEmpty (round ws x).0 (round ws x).1
  unfolding round
  round-AllSawEmpty [] x d h = tt
  round-AllSawEmpty (w ∷ ws) x d (h, hs) =
      let x' = (work w x).1 in
      (
        round_saw (work w x).0 ws x' (work-SawEmpty w x d h),
        round-AllSawEmpty ws x' (work-IsDraining w x d) (work_all_saw ws w x hs),
      )

  length-round : (ws : List (Worker T)) (x : BoundedExecutor T) → length (round ws x).0 ≡ length ws
  unfolding round
  length-round [] x = refl
  length-round (w ∷ ws) x = ap suc (length-round ws (work w x).1)

  joined_empty :
      (ws : List (Worker T)) (x : BoundedExecutor T)
      → is_joined ws ≡ true
      → AllSawEmpty ws x
      → 0 < length ws
      → x.tasks ≡ []
  joined_empty [] x j h n = absurd (omega (arith, n))
  joined_empty (returned ∷ ws) x j h n = h.0
  joined_empty (waiting ∷ ws) x j h n = absurd (cc j)
  joined_empty (running t ∷ ws) x j h n = absurd (cc j)
  joined_empty (ran ∷ ws) x j h n = absurd (cc j)
  joined_empty (counted ∷ ws) x j h n = absurd (cc j)

  -- When the workers are joined, the queue is empty.
  pub rounds_empty :
      (n : ℕ) (ws : List (Worker T)) (x : BoundedExecutor T)
      → IsDraining x
      → AllSawEmpty ws x
      → 0 < length ws
      → is_joined (rounds n ws x).0 ≡ true
      → (rounds n ws x).1.tasks ≡ []
  unfolding rounds
  rounds_empty zero ws x d h l j = joined_empty ws x j h l
  rounds_empty (suc n) ws x d h l j =
      rounds_empty n (round ws x).0 (round ws x).1 (round-IsDraining ws x d)
        (round-AllSawEmpty ws x d h) (omega (arith, l, length-round ws x)) j
