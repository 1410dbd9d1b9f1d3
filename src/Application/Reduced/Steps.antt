-- ===== src/Application/Reduced/Steps.antt =====
-- That the events of the loop, one after the other, keep the invariant of `AsyncReducer`
-- (library/application/reduced.py).
use example_litestar_service.Prelude.{
  ℕ, ◌≡◌, refl, some, Option-cases, inl, inr, arith, List, [], ◌∷◌,
}
use example_litestar_service.Application.Result.{Result}
use example_litestar_service.Application.Reduced.{
  AsyncReducer, Waiter, Wait, delivered, call, step, run, Event, called, finished, woken, dropped,
  set_wait_future_result, set_state, cancel,
}
use example_litestar_service.Application.Reduced.Invariant.{
  IsConsistent, call-IsConsistent, ended, finish_task_lem, ended-IsConsistent,
}

module _ {V : Type 0} where
  -- Neither a delivery of the future's outcome nor a cancellation breaks the invariant.
  set_state-IsConsistent :
      (w : ℕ) (x : Waiter V) (state : Wait V) (r : AsyncReducer V)
      → r.waiters w ≡ some x
      → ((result : Result V) → state ≡ delivered result → r.outcome x.future ≡ some result)
      → IsConsistent r
      → IsConsistent (set_state w x state r)
  set_state-IsConsistent w x state r there honest c = record {
    linked = c.linked;
    owned = c.owned;
    pending = c.pending;
    settled = c.settled;
    fresh_task = c.fresh_task;
    fresh_outcome = c.fresh_outcome;
    known = λ v y h. ground (arith, c.known v y, c.known w x there);
    truthful = λ v y result h k. ground (arith, c.truthful v y result, honest result);
    fresh_waiter = λ v h. ground (arith, c.fresh_waiter v);
  }

  woken_honest :
      (w : ℕ) (x : Waiter V) (result : Result V) (r : AsyncReducer V)
      → IsConsistent r
      → r.waiters w ≡ some x
      → r.outcome x.future ≡ some result
      → (given : Result V) → set_wait_future_result result x.state ≡ delivered given
      → r.outcome x.future ≡ some given
  unfolding set_wait_future_result
  woken_honest w x result r c there known given e = ground (arith, c.truthful w x given there)

  dropped_honest :
      (w : ℕ) (x : Waiter V) (r : AsyncReducer V)
      → IsConsistent r
      → r.waiters w ≡ some x
      → (given : Result V) → cancel x.state ≡ delivered given
      → r.outcome x.future ≡ some given
  dropped_honest w x r c there given e = ground (arith, c.truthful w x given there)

  -- A step raises nothing that `asyncio` or `dict` would raise, and keeps the invariant.
  step-IsConsistent :
      (event : Event V) (r : AsyncReducer V)
      → IsConsistent r
      → (r' : AsyncReducer V) × (step event r ≡ some r') × IsConsistent r'
  unfolding step
  step-IsConsistent (called ident coro) r c =
      (call ident coro r, refl, call-IsConsistent ident coro r c)
  step-IsConsistent (finished f result) r c = elim (Option-cases (r.tasks f)) [
    | inl absent ↦ (r, rw (step, absent) refl, c)
    | inr (t, task) ↦ (
      ended f t result r,
      rw (step, task) (finish_task_lem f t result r c task),
      ended-IsConsistent f t result r c task,
    )
  ]
  step-IsConsistent (woken w) r c = elim (Option-cases (r.waiters w)) [
    | inl absent ↦ (r, rw (step, absent) refl, c)
    | inr (x, there) ↦ elim (Option-cases (r.outcome x.future)) [
      | inl open_future ↦ (r, rw (step, there, open_future) refl, c)
      | inr (result, known) ↦ (
        set_state w x (set_wait_future_result result x.state) r,
        rw (step, there, known) refl,
        set_state-IsConsistent w x _ r there (woken_honest w x result r c there known) c,
      )
    ]
  ]
  step-IsConsistent (dropped w) r c = elim (Option-cases (r.waiters w)) [
    | inl absent ↦ (r, rw (step, absent) refl, c)
    | inr (x, there) ↦ (
      set_state w x (cancel x.state) r,
      rw (step, there) refl,
      set_state-IsConsistent w x _ r there (dropped_honest w x r c there) c,
    )
  ]

  pub run_from-IsConsistent :
      (events : List (Event V)) (r : AsyncReducer V)
      → IsConsistent r
      → (r' : AsyncReducer V) × (run events r ≡ some r') × IsConsistent r'
  unfolding run
  run_from-IsConsistent [] r c = (r, refl, c)
  run_from-IsConsistent (event ∷ events) r c =
      let (next, stepped, c') = step-IsConsistent event r c in
      let (last, ran, c'') = run_from-IsConsistent events next c' in
      (last, rw (run, stepped) ran, c'')
