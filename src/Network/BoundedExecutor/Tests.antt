-- ===== src/Network/BoundedExecutor/Tests.antt =====
-- Runs of the executor (src/network/bounded_executor.cpp) with two workers and room for two tasks, whose
-- tasks are numbers.
use nebula_kv.Prelude.{ℕ, ◌≤◌, ◌≡◌, refl, Bool, true, false, List, [], ◌∷◌, length, leb}
use nebula_kv.Prelude.Result.{ok}
use nebula_kv.Network.BoundedExecutor.{
  Worker, BoundedExecutor, start_workers, make_executor, begin_shutdown, rounds, is_joined, Action,
  submit, step, run, act, accepted, try_submit,
}
use nebula_kv.Network.BoundedExecutor.Conserves.{count, run-accepted, fresh_executor}
use nebula_kv.Network.BoundedExecutor.Drains.{steps_left}
use nebula_kv.Network.BoundedExecutor.Shutdown.{has_no_stop, rounds-begin_shutdown}

-- The third task finds the queue full; a worker takes the first one and the other its second.
abbrev actions : List (Action ℕ)
actions = submit 5 ∷ submit 6 ∷ submit 7 ∷ step 0 ∷ submit 8 ∷ step 1 ∷ step 0 ∷ step 1 ∷ []

abbrev is_large : ℕ → Bool
is_large n = leb 6 n

run-accepted_example :
    (ws : List (Worker ℕ)) × (x : BoundedExecutor ℕ) × (make_executor 2 2 ≡ ok (ws, x))
    × (count is_large (run actions ws x).1.calls ≤ count is_large (accepted actions ws x))
    × (length (run actions ws x).1.tasks ≤ 2)
run-accepted_example = run-accepted 1 1 actions is_large

rounds-begin_shutdown_example :
    (ws : List (Worker ℕ)) × (x : BoundedExecutor ℕ) × (make_executor 2 2 ≡ ok (ws, x))
    × (let (ws1, x1) = run actions ws x in
        let x2 = begin_shutdown true x1 in
        let (joined, y) = rounds (steps_left ws1 x2) ws1 x2 in
        (is_joined joined ≡ true)
        × (y.tasks ≡ [])
        × (count is_large y.calls ≡ count is_large (accepted actions ws x)))
unfolding has_no_stop
rounds-begin_shutdown_example = rounds-begin_shutdown 1 1 actions is_large refl

abbrev at_work : List (Worker ℕ) × BoundedExecutor ℕ
at_work = run actions (start_workers 2) (fresh_executor 2)

one_refused : accepted actions (start_workers 2) (fresh_executor 2) ≡ 5 ∷ 6 ∷ 8 ∷ []
unfolding accepted act
one_refused = refl

two_called : (at_work.1.calls ≡ 6 ∷ 5 ∷ []) × (at_work.1.tasks ≡ 8 ∷ [])
unfolding run
two_called = (refl, refl)

drained : (rounds 9 at_work.0 (begin_shutdown true at_work.1)).1.calls ≡ 8 ∷ 6 ∷ 5 ∷ []
unfolding run rounds
drained = refl

-- Without draining the last task is dropped.
dropped : (rounds 9 at_work.0 (begin_shutdown false at_work.1)).1.calls ≡ 6 ∷ 5 ∷ []
unfolding run rounds
dropped = refl

-- And no task is accepted after a shutdown.
refused : (try_submit 9 (begin_shutdown true at_work.1)).1 ≡ false
unfolding run try_submit
refused = refl
