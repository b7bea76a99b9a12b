-- ===== src/Network/BoundedExecutor.antt =====
-- src/network/bounded_executor.cpp and include/nebulakv/network/bounded_executor.hpp. A stretch under the
-- mutex is one step of its thread, and so is each change of an atomic counter.
pub mod Conserves
pub mod Drains
pub mod Empties
pub mod Shutdown
mod Tests
use nebula_kv.Prelude.{
  ℕ, zero, suc, ◌+◌, ◌-◌, ◌%◌, Bool, true, false, not, ◌&&◌, ◌||◌, ◌==◌, leb, List, [], ◌∷◌, ◌++◌,
  length, if◌then◌else◌,
}
use nebula_kv.Prelude.Result.{Result, ok, throw_if, invalid_argument, ◌>>=◌, ◌>>◌}
use nebula_kv.Raft.Types.{word}

-- Where a worker thread stands in `worker_loop`: before the lock, at the call of its task, behind the
-- call, behind the first counter, and out of the loop.
pub data Worker {ℓ} (T : Type ℓ) : Type ℓ where
  waiting : Worker T
  running : T → Worker T
  ran : Worker T
  counted : Worker T
  returned : Worker T

-- `calls` are the tasks that were called, the last one first.
pub record BoundedExecutor {ℓ} (T : Type ℓ) : Type ℓ where
  pub queue_capacity : ℕ
  pub tasks : List T
  pub accepting : Bool
  pub stopping : Bool
  pub drain_on_shutdown : Bool
  pub active_tasks : ℕ
  pub submitted_tasks : ℕ
  pub completed_tasks : ℕ
  pub rejected_tasks : ℕ
  pub calls : List T

module _ {ℓ} {T : Type ℓ} where
  abbrev pub start_workers : ℕ → List (Worker T)
  start_workers zero = []
  start_workers (suc n) = waiting ∷ start_workers n

  unfoldable pub make_executor : ℕ → ℕ → Result (List (Worker T) × BoundedExecutor T)
  make_executor worker_count queue_capacity = do
    throw_if (worker_count == 0) invalid_argument
    throw_if (queue_capacity == 0) invalid_argument
    ok (
      start_workers worker_count,
      record {
        queue_capacity = queue_capacity;
        tasks = [];
        accepting = true;
        stopping = false;
        drain_on_shutdown = true;
        active_tasks = 0;
        submitted_tasks = 0;
        completed_tasks = 0;
        rejected_tasks = 0;
        calls = [];
      },
    )

  abbrev pub is_rejecting : BoundedExecutor T → Bool
  is_rejecting x = not x.accepting || leb x.queue_capacity (length x.tasks)

  -- Whether there is a future for the task.
  unfoldable pub try_submit : T → BoundedExecutor T → BoundedExecutor T × Bool
  try_submit t x =
      if is_rejecting x
      then (record x { rejected_tasks = (x.rejected_tasks + 1) % word }, false)
      else (
        record x { tasks = x.tasks ++ t ∷ []; submitted_tasks = (x.submitted_tasks + 1) % word },
        true,
      )

  -- The stretch under the mutex; the rest of `shutdown` waits for the workers.
  unfoldable pub begin_shutdown : Bool → BoundedExecutor T → BoundedExecutor T
  begin_shutdown drain x = if x.stopping then x else record x {
    accepting = false;
    stopping = true;
    drain_on_shutdown = drain;
    tasks = if drain then x.tasks else [];
  }

  -- The stretch of `worker_loop` under the mutex. A worker whose condition does not hold, or who finds no
  -- task, waits on.
  abbrev pub take_task : List T → BoundedExecutor T → Worker T × BoundedExecutor T
  take_task [] x = (if x.stopping then returned else waiting, x)
  take_task (t ∷ ts) x =
      if x.stopping && not x.drain_on_shutdown
      then (returned, x)
      else (running t, record x { tasks = ts; active_tasks = (x.active_tasks + 1) % word })

  unfoldable pub work : Worker T → BoundedExecutor T → Worker T × BoundedExecutor T
  work waiting x = take_task x.tasks x
  work (running t) x = (ran, record x { calls = t ∷ x.calls })
  work ran x = (counted, record x { active_tasks = (x.active_tasks + word - 1) % word })
  work counted x = (waiting, record x { completed_tasks = (x.completed_tasks + 1) % word })
  work returned x = (returned, x)

  -- A step of the worker with this number.
  unfoldable pub work_at :
      ℕ → List (Worker T) → BoundedExecutor T → List (Worker T) × BoundedExecutor T
  unfolding work
  work_at i [] x = ([], x)
  work_at zero (w ∷ ws) x = let (w', x') = work w x in (w' ∷ ws, x')
  work_at (suc i) (w ∷ ws) x = let (ws', x') = work_at i ws x in (w ∷ ws', x')

  -- A step of every worker in turn.
  unfoldable pub round : List (Worker T) → BoundedExecutor T → List (Worker T) × BoundedExecutor T
  unfolding work
  round [] x = ([], x)
  round (w ∷ ws) x = let (w', x1) = work w x in let (ws', x2) = round ws x1 in (w' ∷ ws', x2)

  unfoldable pub rounds :
      ℕ → List (Worker T) → BoundedExecutor T → List (Worker T) × BoundedExecutor T
  unfolding round
  rounds zero ws x = (ws, x)
  rounds (suc n) ws x = let (ws', x') = round ws x in rounds n ws' x'

  -- Whether `shutdown` has joined all workers.
  abbrev pub is_joined : List (Worker T) → Bool
  is_joined [] = true
  is_joined (returned ∷ ws) = is_joined ws
  is_joined (_ ∷ ws) = false

-- What happens to an executor.
pub data Action {ℓ} (T : Type ℓ) : Type ℓ where
  submit : T → Action T
  step : ℕ → Action T
  stop : Bool → Action T

module _ {ℓ} {T : Type ℓ} where
  unfoldable pub act :
      Action T → List (Worker T) → BoundedExecutor T → List (Worker T) × BoundedExecutor T
  unfolding try_submit begin_shutdown work_at
  act (submit t) ws x = (ws, (try_submit t x).0)
  act (step i) ws x = work_at i ws x
  act (stop drain) ws x = (ws, begin_shutdown drain x)

  unfoldable pub run :
      List (Action T) → List (Worker T) → BoundedExecutor T → List (Worker T) × BoundedExecutor T
  unfolding act
  run [] ws x = (ws, x)
  run (a ∷ actions) ws x = let (ws', x') = act a ws x in run actions ws' x'

  -- The tasks that got a future.
  abbrev pub accepted_by : Action T → BoundedExecutor T → List T
  accepted_by (submit t) x = if is_rejecting x then [] else t ∷ []
  accepted_by (step i) x = []
  accepted_by (stop drain) x = []

  unfoldable pub accepted : List (Action T) → List (Worker T) → BoundedExecutor T → List T
  unfolding act
  accepted [] ws x = []
  accepted (a ∷ actions) ws x =
      let (ws', x') = act a ws x in let rest = accepted actions ws' x' in accepted_by a x ++ rest
