-- ===== src/Application/Reduced/Invariant.antt =====
-- The invariant of `AsyncReducer` (library/application/reduced.py), kept by every event.
use example_litestar_service.Prelude.{
  str_eq, eq_iff, ℕ, ◌+◌, ◌≤◌, ◌<◌, ◌≡◌, ◌≢◌, refl, String, none, some, Option-cases, Bool-cases,
  inl, inr, arith,
}
use example_litestar_service.Application.Result.{Result}
use example_litestar_service.Application.Reduced.{
  AsyncReducer, Task, Waiter, delivered, init, call, finish_task, get_or_create_future, add_waiter,
  set_item, update,
}

module _ {V : Type 0} where
  pub record IsConsistent (r : AsyncReducer V) : Type 0 where
    -- A key that is running has a task, which will remove it.
    pub linked :
        (ident : String) (f : ℕ)
        → r.running ident ≡ some f
        → (t : Task) × (r.tasks f ≡ some t) × (t.ident ≡ ident)
    -- A task is the one of its key, and its future is not set.
    pub owned : (f : ℕ) (t : Task) → r.tasks f ≡ some t → r.running t.ident ≡ some f
    pub pending : (f : ℕ) (t : Task) → r.tasks f ≡ some t → r.outcome f ≡ none
    -- No future is lost: it has a task or an outcome.
    pub settled : (f : ℕ) → f < r.next_future → r.tasks f ≡ none → r.outcome f ≢ none
    pub fresh_task : (f : ℕ) → r.next_future ≤ f → r.tasks f ≡ none
    pub fresh_outcome : (f : ℕ) → r.next_future ≤ f → r.outcome f ≡ none
    -- A caller waits for a future that exists, and was given nothing but its outcome.
    pub known : (w : ℕ) (x : Waiter V) → r.waiters w ≡ some x → x.future < r.next_future
    pub truthful :
        (w : ℕ) (x : Waiter V) (result : Result V)
        → r.waiters w ≡ some x
        → x.state ≡ delivered result
        → r.outcome x.future ≡ some result
    pub fresh_waiter : (w : ℕ) → r.next_waiter ≤ w → r.waiters w ≡ none

  pub init-IsConsistent : IsConsistent init
  init-IsConsistent = record {
    linked = λ ident f h. cc;
    owned = λ f t h. cc;
    pending = λ f t h. cc;
    settled = λ f h. absurd (omega arith);
    fresh_task = λ f h. refl;
    fresh_outcome = λ f h. refl;
    known = λ w x h. cc;
    truthful = λ w x result h. cc;
    fresh_waiter = λ w h. refl;
  }

  add_waiter-IsConsistent :
      (f : ℕ) (r : AsyncReducer V)
      → f < r.next_future
      → IsConsistent r
      → IsConsistent (add_waiter f r)
  unfolding add_waiter
  add_waiter-IsConsistent f r lt c = record {
    linked = c.linked;
    owned = c.owned;
    pending = c.pending;
    settled = c.settled;
    fresh_task = c.fresh_task;
    fresh_outcome = c.fresh_outcome;
    known = λ w x h. ground (arith, c.known w x);
    truthful = λ w x result h k. ground (arith, c.truthful w x result);
    fresh_waiter = λ w h. ground (arith, c.fresh_waiter w);
  }

  -- The state in which the call of an idle key leaves the dictionaries.
  abbrev pub started : String → ℕ → AsyncReducer V → AsyncReducer V
  started ident coro r = record r {
    running = set_item ident (some r.next_future) (set_item ident (some r.next_future) r.running);
    tasks = update r.next_future (some (record { ident = ident; coro = coro })) r.tasks;
    next_future = r.next_future + 1;
  }

  pub call_busy :
      (ident : String) (coro f : ℕ) (r : AsyncReducer V)
      → r.running ident ≡ some f
      → call ident coro r ≡ add_waiter f r
  unfolding call
  call_busy ident coro f r busy = rw (get_or_create_future, busy) refl

  pub call_idle :
      (ident : String) (coro : ℕ) (r : AsyncReducer V)
      → r.running ident ≡ none
      → call ident coro r ≡ add_waiter r.next_future (started ident coro r)
  unfolding call
  call_idle ident coro r idle = rw (get_or_create_future, idle) refl

  started_linked :
      (ident : String) (coro : ℕ) (r : AsyncReducer V)
      → IsConsistent r
      → (i : String) (f : ℕ) → (started ident coro r).running i ≡ some f
      → (t : Task) × ((started ident coro r).tasks f ≡ some t) × (t.ident ≡ i)
  started_linked ident coro r c i f h = elim (Bool-cases (str_eq ident i)) [
    | inl same ↦ (record { ident = ident; coro = coro }, ground arith, (eq_iff ident i).0 same)
    | inr other ↦
        let (t, task, key) = c.linked i f (ground arith) in (t, ground (arith, c.fresh_task f), key)
  ]

  started-IsConsistent :
      (ident : String) (coro : ℕ) (r : AsyncReducer V)
      → r.running ident ≡ none
      → IsConsistent r
      → IsConsistent (started ident coro r)
  started-IsConsistent ident coro r idle c = record {
    linked = λ i f h. started_linked ident coro r c i f h;
    owned = λ f t h. ground (arith, c.owned f t, eq_iff ident t.ident, eq_iff ident ident);
    pending = λ f t h. ground (arith, c.pending f t, c.fresh_outcome f);
    settled = λ f h k. ground (arith, c.settled f);
    fresh_task = λ f h. ground (arith, c.fresh_task f);
    fresh_outcome = λ f h. ground (arith, c.fresh_outcome f);
    known = λ w x h. ground (arith, c.known w x);
    truthful = c.truthful;
    fresh_waiter = c.fresh_waiter;
  }

  pub call-IsConsistent :
      (ident : String) (coro : ℕ) (r : AsyncReducer V)
      → IsConsistent r
      → IsConsistent (call ident coro r)
  call-IsConsistent ident coro r c = elim (Option-cases (r.running ident)) [
    | inl idle ↦ rw (call_idle ident coro r idle) (
        add_waiter-IsConsistent r.next_future (started ident coro r) (omega arith)
          (started-IsConsistent ident coro r idle c))
    | inr (f, busy) ↦
        let (t, task, key) = c.linked ident f busy in
        rw (call_busy ident coro f r busy)
          (add_waiter-IsConsistent f r (ground (arith, c.fresh_task f)) c)
  ]

  -- The state after a runner has set its future and removed its key.
  abbrev pub ended : ℕ → Task → Result V → AsyncReducer V → AsyncReducer V
  ended future task result r = record r {
    outcome = update future (some result) r.outcome;
    running = set_item task.ident none r.running;
    tasks = update future none r.tasks;
  }

  -- The runner of a task neither finds its future set nor its key gone.
  pub finish_task_lem :
      (f : ℕ) (t : Task) (result : Result V) (r : AsyncReducer V)
      → IsConsistent r
      → r.tasks f ≡ some t
      → finish_task f t result r ≡ some (ended f t result r)
  unfolding finish_task
  finish_task_lem f t result r c task = rw (finish_task, c.pending f t task, c.owned f t task) refl

  pub ended-IsConsistent :
      (f : ℕ) (t : Task) (result : Result V) (r : AsyncReducer V)
      → IsConsistent r
      → r.tasks f ≡ some t
      → IsConsistent (ended f t result r)
  ended-IsConsistent f t result r c task = record {
    linked = λ i g h. ended_linked i g h;
    owned = λ g u h. ground (arith, c.owned g u, c.owned f t task, eq_iff t.ident u.ident);
    pending = λ g u h. ground (arith, c.pending g u);
    settled = λ g h k. ground (arith, c.settled g);
    fresh_task = λ g h. ground (arith, c.fresh_task g);
    fresh_outcome = λ g h. ground (arith, c.fresh_outcome g, c.fresh_task g);
    known = c.known;
    truthful = λ w x given h k. ground (arith, c.truthful w x given h k, c.pending f t task);
    fresh_waiter = c.fresh_waiter;
  }
    where
      ended_linked :
          (i : String) (g : ℕ)
          → (ended f t result r).running i ≡ some g
          → (u : Task) × ((ended f t result r).tasks g ≡ some u) × (u.ident ≡ i)
      ended_linked i g h =
          let (u, other, key) = c.linked i g (ground arith) in
          (u, ground (arith, eq_iff t.ident i), key)
