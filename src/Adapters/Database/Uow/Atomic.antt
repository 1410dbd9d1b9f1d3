-- ===== src/Adapters/Database/Uow/Atomic.antt =====
-- What `async with uow` of library/adapters/database/uow.py guarantees, on every path.
use example_litestar_service.Prelude.{◌≡◌, ◌∙◌, some, arith, inl, inr}
use example_litestar_service.Application.Exceptions.{Exception}
use example_litestar_service.Application.Result.{ok, raise, Action, Result-cases}
use example_litestar_service.Domains.Uow.{with_uow}
use example_litestar_service.Adapters.Database.Uow.{
  SessionApi, SqlalchemyUow, State, closed, sqlalchemy_uow, create_transaction, commit, rollback,
  close_transaction,
}

-- Transactions as sqlalchemy and PostgreSQL document them: `durable` is what is committed, `view`
-- what a session sees. A commit that raises is one that the database refused.
pub record IsTransactional {W Session Transaction Db : Type 0}
    (api : SessionApi W Session Transaction) (durable : W → Db) (view : Session → W → Db)
    : Type 0 where
  pub make_durable : (w : W) → durable (api.make_session w).1 ≡ durable w
  pub begin_durable : (s : Session) (w : W) → durable (api.begin s w).1 ≡ durable w
  pub begin_view :
      (s : Session) (w : W) (t : Transaction)
      → (api.begin s w).0 ≡ ok t
      → view s (api.begin s w).1 ≡ durable w
  pub commit_durable :
      (s : Session) (w : W) → (api.commit s w).0 ≡ ok tt → durable (api.commit s w).1 ≡ view s w
  pub commit_failed :
      (s : Session) (w : W) (e : Exception)
      → (api.commit s w).0 ≡ raise e
      → durable (api.commit s w).1 ≡ durable w
  pub rollback_durable : (s : Session) (w : W) → durable (api.rollback s w).1 ≡ durable w
  pub close_durable : (s : Session) (w : W) → durable (api.close s w).1 ≡ durable w
  pub close_returns : (s : Session) (w : W) → (api.close s w).0 ≡ ok tt

module _ {W Session Transaction Db : Type 0} (api : SessionApi W Session Transaction)
    (durable : W → Db) (view : Session → W → Db) (laws : IsTransactional api durable view) where
  -- A body that works through the session: it neither touches the unit of work nor commits.
  pub record WorksInside {A : Type 0} (body : Action (State api) A) : Type 0 where
    pub same_uow : (u : SqlalchemyUow Session Transaction) (w : W) → (body (u, w)).1.0 ≡ u
    pub same_durable :
        (u : SqlalchemyUow Session Transaction) (w : W) → durable (body (u, w)).1.1 ≡ durable w

  -- The unit of work while the body runs.
  abbrev pub opened : Session → Transaction → SqlalchemyUow Session Transaction
  opened s t = record { session = some s; transaction = some t }

  -- If `async with uow` raises, because its body does or because the transaction cannot be begun,
  -- committed or rolled back, nothing of a body that works through the session is committed.
  pub with_uow_raised :
      {A : Type 0} (body : Action (State api) A) (w : W) (e : Exception)
      → WorksInside body
      → (with_uow (sqlalchemy_uow api) body (closed, w)).0 ≡ raise e
      → durable (with_uow (sqlalchemy_uow api) body (closed, w)).1.1 ≡ durable w
  unfolding with_uow create_transaction commit rollback close_transaction
  with_uow_raised body w e inside raised =
      let s = (api.make_session w).0 in
      let w₁ = (api.make_session w).1 in
      elim (Result-cases (api.begin s w₁).0) [
        | inl (t, began) ↦
            let w₂ = (api.begin s w₁).1 in
            let w₃ = (body (opened s t, w₂)).1.1 in
            ground (
              arith,
              began,
              laws.make_durable w,
              laws.begin_durable s w₁,
              inside.same_uow (opened s t) w₂,
              inside.same_durable (opened s t) w₂,
              laws.commit_failed s w₃,
              laws.rollback_durable s w₃,
              laws.close_durable s (api.commit s w₃).1,
              laws.close_durable s (api.rollback s w₃).1,
              laws.close_returns s (api.commit s w₃).1,
              laws.commit_failed s w₃ e,
            )
        | inr (error, failed) ↦ ground (arith, failed, laws.make_durable w, laws.begin_durable s w₁)
      ]

  -- If `async with uow` returns, its body, which works through the session, began on the committed database and returned the same
  -- value, what its session saw at its end is committed, and the unit of work is closed again.
  pub with_uow_returned :
      {A : Type 0} (body : Action (State api) A) (w : W) (a : A)
      → WorksInside body
      → (with_uow (sqlalchemy_uow api) body (closed, w)).0 ≡ ok a
      → (s : Session) × (t : Transaction) × (w₂ : W) × (view s w₂ ≡ durable w)
        × ((body (opened s t, w₂)).0 ≡ ok a)
        × (durable (with_uow (sqlalchemy_uow api) body (closed, w)).1.1
            ≡ view s (body (opened s t, w₂)).1.1)
        × ((with_uow (sqlalchemy_uow api) body (closed, w)).1.0 ≡ closed)
  unfolding with_uow create_transaction commit rollback close_transaction
  with_uow_returned body w a inside returned =
      let s = (api.make_session w).0 in
      let w₁ = (api.make_session w).1 in
      elim (Result-cases (api.begin s w₁).0) [
        | inl (t, began) ↦
            let w₂ = (api.begin s w₁).1 in
            let w₃ = (body (opened s t, w₂)).1.1 in
            (
              s,
              t,
              w₂,
              laws.begin_view s w₁ t began ∙ laws.make_durable w,
              ground (arith, began, inside.same_uow (opened s t) w₂),
              ground (
                arith,
                began,
                inside.same_uow (opened s t) w₂,
                laws.commit_durable s w₃,
                laws.close_durable s (api.commit s w₃).1,
              ),
              ground (arith, began, inside.same_uow (opened s t) w₂),
            )
        | inr (error, failed) ↦ absurd (ground (arith, failed))
      ]

  -- As long as committing and rolling back do not raise, `async with uow` leaves the unit of work
  -- closed once its body has been entered, whether the body returns or raises.
  pub with_uow_closes :
      {A : Type 0} (body : Action (State api) A) (w : W) (t : Transaction)
      → WorksInside body
      → (api.begin (api.make_session w).0 (api.make_session w).1).0 ≡ ok t
      → ((s : Session) (v : W) → (api.commit s v).0 ≡ ok tt)
      → ((s : Session) (v : W) → (api.rollback s v).0 ≡ ok tt)
      → (with_uow (sqlalchemy_uow api) body (closed, w)).1.0 ≡ closed
  unfolding with_uow create_transaction commit rollback close_transaction
  with_uow_closes body w t inside began commits rolls_back =
      let s = (api.make_session w).0 in
      let w₂ = (api.begin s (api.make_session w).1).1 in
      let w₃ = (body (opened s t, w₂)).1.1 in
      ground (
        arith,
        inside.same_uow (opened s t) w₂,
        commits s w₃,
        rolls_back s w₃,
        laws.close_returns s (api.commit s w₃).1,
        laws.close_returns s (api.rollback s w₃).1,
      )
