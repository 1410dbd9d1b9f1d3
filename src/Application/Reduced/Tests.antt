-- ===== src/Application/Reduced/Tests.antt =====
-- Runs of the reducer of library/application/reduced.py: two callers of one key, and one of another.
use example_litestar_service.Prelude.{ℕ, ◌≡◌, refl, List, [], ◌∷◌, some, none, ◌⊎◌}
use example_litestar_service.Application.Result.{Result, ok}
use example_litestar_service.Application.Reduced.{
  AsyncReducer, Task, Waiter, waiting, delivered, init, call, step, run, Event, called, finished,
  woken, get_or_create_future, add_waiter, start_task, finish_task, set_wait_future_result,
  set_state,
}
use example_litestar_service.Application.Reduced.Invariant.{IsConsistent}
use example_litestar_service.Application.Reduced.Sharing.{
  run_total, one_task_for_each_key, waiter_is_served,
}

abbrev calls : List (Event ℕ)
calls = called "austen" 10 ∷ called "austen" 11 ∷ called "borges" 12 ∷ []

abbrev after_calls : AsyncReducer ℕ
after_calls = call "borges" 12 (call "austen" 11 (call "austen" 10 init))

run-calls : run calls init ≡ some after_calls
unfolding run step
run-calls = refl

abbrev austen : Task
austen = record { ident = "austen"; coro = 10 }

-- The coroutine returns, and both of its callers are woken.
abbrev ending : List (Event ℕ)
ending = called "austen" 10 ∷ called "austen" 11 ∷ finished 0 (ok 7) ∷ woken 0 ∷ woken 1 ∷ []

abbrev finished_state : AsyncReducer ℕ
finished_state = elim (finish_task 0 austen (ok 7) (call "austen" 11 (call "austen" 10 init))) [
  | none ↦ init
  | some r ↦ r
]

abbrev served : ℕ → Waiter ℕ
served f = record { future = f; state = delivered (ok 7) }

abbrev first_waiter : Waiter ℕ
first_waiter = record { future = 0; state = waiting }

abbrev after_ending : AsyncReducer ℕ
after_ending =
    set_state 1 first_waiter (delivered (ok 7))
      (set_state 0 first_waiter (delivered (ok 7)) finished_state)

run-ending : run ending init ≡ some after_ending
unfolding run step call get_or_create_future add_waiter start_task finish_task
    set_wait_future_result
run-ending = refl

run_total_example : (r : AsyncReducer ℕ) × (run ending init ≡ some r) × IsConsistent r
run_total_example = run_total ending

one_task_for_each_key_example : ◌≡◌ {A = ℕ} 0 0
unfolding call get_or_create_future add_waiter start_task
one_task_for_each_key_example =
    one_task_for_each_key calls after_calls 0 0 austen austen run-calls refl refl refl

waiter_is_served_example :
    ((t : Task) × (after_calls.tasks 0 ≡ some t))
    ⊎ ((result : Result ℕ) × (after_calls.outcome 0 ≡ some result)
        × (step (woken 1) after_calls
            ≡ some (
                set_state 1
                  (record { future = 0; state = waiting })
                  (delivered result)
                  after_calls)))
unfolding call get_or_create_future add_waiter start_task
waiter_is_served_example =
    waiter_is_served calls after_calls 1 (record { future = 0; state = waiting }) run-calls refl
      refl
