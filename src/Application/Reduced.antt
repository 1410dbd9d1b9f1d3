-- ===== src/Application/Reduced.antt =====
-- library/application/reduced.py: one running coroutine for each key, shared by its callers.
-- The event loop decides the order of events: a call, the end of a coroutine, the delivery of a
-- result to one caller, the cancellation of one caller. Dictionaries are functions to `Option`.
pub mod Invariant
pub mod Steps
pub mod Sharing
mod Tests
use example_litestar_service.Prelude.{
  str_eq, ℕ, ◌+◌, String, Bool, true, false, List, [], ◌∷◌, Option, none, some, if◌then◌else◌, ◌==◌,
}
use example_litestar_service.Application.Result.{Result}

-- A coroutine that runs in `_runner`, with the key that it will remove.
pub record Task : Type 0 where
  pub ident : String
  pub coro : ℕ

-- `wait_future` of one call of `_waiter`.
pub data Wait (V : Type 0) : Type 0 where
  waiting : Wait V
  cancelled : Wait V
  delivered : Result V → Wait V

pub record Waiter (V : Type 0) : Type 0 where
  pub future : ℕ
  pub state : Wait V

-- `AsyncReducer`: futures and waiters are numbered in the order of their creation. `outcome` is
-- what a future was set to, `tasks` the runners by the future that they set.
pub record AsyncReducer (V : Type 0) : Type 0 where
  pub running : String → Option ℕ
  pub tasks : ℕ → Option Task
  pub outcome : ℕ → Option (Result V)
  pub next_future : ℕ
  pub waiters : ℕ → Option (Waiter V)
  pub next_waiter : ℕ

abbrev pub set_item {ℓ} : {A : Type ℓ} → String → A → (String → A) → String → A
set_item k v d j = if str_eq k j then v else d j

abbrev pub update {ℓ} : {A : Type ℓ} → ℕ → A → (ℕ → A) → ℕ → A
update k v d j = if k == j then v else d j

module _ {V : Type 0} where
  abbrev pub init : AsyncReducer V
  init = record {
    running = λ _. none;
    tasks = λ _. none;
    outcome = λ _. none;
    next_future = 0;
    waiters = λ _. none;
    next_waiter = 0;
  }

  -- `_get_or_create_future`
  unfoldable pub get_or_create_future : String → AsyncReducer V → (ℕ × Bool) × AsyncReducer V
  get_or_create_future ident r = elim (r.running ident) [
    | some f ↦ ((f, false), r)
    | none ↦ (
      (r.next_future, true),
      record r {
        running = set_item ident (some r.next_future) r.running;
        next_future = r.next_future + 1;
      },
    )
  ]

  -- `_waiter`
  unfoldable pub add_waiter : ℕ → AsyncReducer V → AsyncReducer V
  add_waiter future r = record r {
    waiters = update r.next_waiter (some (record { future = future; state = waiting })) r.waiters;
    next_waiter = r.next_waiter + 1;
  }

  -- The rest of `__call__`: a created future gets a task, else the coroutine is closed.
  unfoldable pub start_task : String → ℕ → ℕ × Bool → AsyncReducer V → AsyncReducer V
  start_task ident coro (future, created) r =
      if created
      then record r {
        running = set_item ident (some future) r.running;
        tasks = update future (some (record { ident = ident; coro = coro })) r.tasks;
      }
      else r

  -- `__call__(coro, ident)`, awaited.
  unfoldable pub call : String → ℕ → AsyncReducer V → AsyncReducer V
  unfolding get_or_create_future add_waiter start_task
  call ident coro r =
      let ((future, created), r') = get_or_create_future ident r in
      add_waiter future (start_task ident coro (future, created) r')

  -- `_runner`, from the end of `await coro`: the future is set, and the key removed. `none` stands
  -- for the exceptions that `asyncio` and `dict` would raise here, `InvalidStateError` for a future
  -- that is already set and `KeyError`.
  unfoldable pub finish_task : ℕ → Task → Result V → AsyncReducer V → Option (AsyncReducer V)
  finish_task future task result r = elim (r.outcome future) [
    | some _ ↦ none
    | none ↦ elim (r.running task.ident) [
      | none ↦ none
      | some _ ↦ some (record r {
        outcome = update future (some result) r.outcome;
        running = set_item task.ident none r.running;
        tasks = update future none r.tasks;
      })
    ]
  ]

  -- `_set_wait_future_result`, on the outcome of the future. The loop runs the callback of a waiter
  -- once, so a waiter that was served stays as it is.
  unfoldable pub set_wait_future_result : Result V → Wait V → Wait V
  set_wait_future_result result waiting = delivered result
  set_wait_future_result result cancelled = cancelled
  set_wait_future_result result (delivered earlier) = delivered earlier

-- What the event loop does next.
pub data Event (V : Type 0) : Type 0 where
  called : (ident : String) (coro : ℕ) → Event V
  -- the coroutine behind a future returns or raises
  finished : (future : ℕ) (result : Result V) → Event V
  -- the callback of one waiter runs
  woken : (waiter : ℕ) → Event V
  -- one caller is cancelled
  dropped : (waiter : ℕ) → Event V

module _ {V : Type 0} where
  abbrev pub set_state : ℕ → Waiter V → Wait V → AsyncReducer V → AsyncReducer V
  set_state w waiter state r = record r {
    waiters = update w (some (record { future = waiter.future; state = state })) r.waiters;
  }

  abbrev cancel : Wait V → Wait V
  cancel waiting = cancelled
  cancel cancelled = cancelled
  cancel (delivered result) = delivered result

  -- An event that cannot happen leaves the state alone: no such task or waiter, or a callback of
  -- a future that is not set.
  unfoldable pub step : Event V → AsyncReducer V → Option (AsyncReducer V)
  unfolding call finish_task set_wait_future_result
  step (called ident coro) r = some (call ident coro r)
  step (finished future result) r = elim (r.tasks future) [
    | none ↦ some r
    | some task ↦ finish_task future task result r
  ]
  step (woken w) r = elim (r.waiters w) [
    | none ↦ some r
    | some waiter ↦ elim (r.outcome waiter.future) [
      | none ↦ some r
      | some result ↦ some (set_state w waiter (set_wait_future_result result waiter.state) r)
    ]
  ]
  step (dropped w) r = elim (r.waiters w) [
    | none ↦ some r
    | some waiter ↦ some (set_state w waiter (cancel waiter.state) r)
  ]

  unfoldable pub run : List (Event V) → AsyncReducer V → Option (AsyncReducer V)
  run [] r = some r
  run (event ∷ events) r = elim (step event r) [ none ↦ none | some r' ↦ run events r' ]
