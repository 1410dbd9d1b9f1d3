-- ===== src/Application/Reduced/Sharing.antt =====
-- What the callers of `AsyncReducer` (library/application/reduced.py) can rely on, after any
-- sequence of events.
use example_litestar_service.Prelude.{
  ℕ, ◌≡◌, refl, sym, ◌∙◌, subst, some, eq_of_some-eq, Option-cases, inl, inr, ◌⊎◌, List,
}
use example_litestar_service.Application.Result.{Result}
use example_litestar_service.Application.Reduced.{
  AsyncReducer, Task, Waiter, waiting, delivered, init, step, run, Event, woken,
  set_wait_future_result, set_state,
}
use example_litestar_service.Application.Reduced.Invariant.{IsConsistent, init-IsConsistent}
use example_litestar_service.Application.Reduced.Steps.{run_from-IsConsistent}

module _ {V : Type 0} where
  -- No sequence of events makes a runner set a future twice or remove a key that is gone: the
  -- reducer survives every sequence, in a consistent state.
  pub run_total :
      (events : List (Event V)) → (r : AsyncReducer V) × (run events init ≡ some r) × IsConsistent r
  run_total events = run_from-IsConsistent events init init-IsConsistent

  pub run-IsConsistent :
      (events : List (Event V)) (r : AsyncReducer V) → run events init ≡ some r → IsConsistent r
  run-IsConsistent events r e =
      let (r', ran, c) = run_total events in subst IsConsistent (eq_of_some-eq (sym ran ∙ e)) c

  -- After any sequence of events no two coroutines with one key are running.
  pub one_task_for_each_key :
      (events : List (Event V)) (r : AsyncReducer V) (f g : ℕ) (t u : Task)
      → run events init ≡ some r
      → r.tasks f ≡ some t
      → r.tasks g ≡ some u
      → t.ident ≡ u.ident
      → f ≡ g
  one_task_for_each_key events r f g t u e first second same =
      let c = run-IsConsistent events r e in cc (c.owned f t first, c.owned g u second, same)

  -- A caller that waits is never forgotten: its coroutine is still running, or waking the caller
  -- hands it what the coroutine returned or raised.
  pub waiter_is_served :
      (events : List (Event V)) (r : AsyncReducer V) (w : ℕ) (x : Waiter V)
      → run events init ≡ some r
      → r.waiters w ≡ some x
      → x.state ≡ waiting
      → ((t : Task) × (r.tasks x.future ≡ some t))
        ⊎ ((result : Result V) × (r.outcome x.future ≡ some result)
            × (step (woken w) r ≡ some (set_state w x (delivered result) r)))
  unfolding step set_wait_future_result
  waiter_is_served events r w x e there waits =
      let c = run-IsConsistent events r e in
      elim (Option-cases (r.tasks x.future)) [
        | inr running_task ↦ inl running_task
        | inl over ↦ elim (Option-cases (r.outcome x.future)) [
          | inl unset ↦ absurd (c.settled x.future (c.known w x there) over unset)
          | inr (result, known) ↦ inr (result, known, rw (step, there, known, waits) refl)
        ]
      ]

  -- Callers of one future that were given anything were given the same.
  pub callers_agree :
      (events : List (Event V)) (r : AsyncReducer V) (v w : ℕ) (x y : Waiter V) (a b : Result V)
      → run events init ≡ some r
      → r.waiters v ≡ some x
      → r.waiters w ≡ some y
      → x.future ≡ y.future
      → x.state ≡ delivered a
      → y.state ≡ delivered b
      → a ≡ b
  callers_agree events r v w x y a b e first second same given_a given_b =
      let c = run-IsConsistent events r e in
      cc (c.truthful v x a first given_a, c.truthful w y b second given_b, same)
