-- ===== src/Adapters/Database/Uow/Inside.antt =====
-- Bodies of `async with uow` (library/adapters/database/uow.py) that do nothing but work on the
-- session of the unit of work.
use example_litestar_service.Prelude.{
  ◌≡◌, refl, ◌∙◌, ap, sym, none, some, inl, inr, Option-cases, arith,
}
use example_litestar_service.Application.Exceptions.{Exception}
use example_litestar_service.Application.Result.{Result, ok, raise, Action, continue, ◌>>=◌}
use example_litestar_service.Domains.Uow.{with_uow}
use example_litestar_service.Adapters.Database.Uow.{
  SessionApi, SqlalchemyUow, State, closed, sqlalchemy_uow, with_session, create_transaction,
  commit, rollback, close_transaction,
}
use example_litestar_service.Adapters.Database.Uow.Atomic.{
  IsTransactional, WorksInside, opened, with_uow_returned, with_uow_raised,
}

module _ {W Session Transaction Db : Type 0} (api : SessionApi W Session Transaction)
    (durable : W → Db) where
  -- The body runs `raw` on the session where there is one, and does nothing where there is none.
  pub record RunsInside {A : Type 0} (body : Action (State api) A) (raw : Session → Action W A)
      : Type 0 where
    pub on_session :
        (s : Session) (u : SqlalchemyUow Session Transaction) (w : W)
        → u.session ≡ some s
        → body (u, w) ≡ ((raw s w).0, (u, (raw s w).1))
    pub on_none :
        (u : SqlalchemyUow Session Transaction) (w : W)
        → u.session ≡ none
        → (body (u, w)).1 ≡ (u, w)
    pub keeps : (s : Session) (w : W) → durable (raw s w).1 ≡ durable w

  pub RunsInside-with_session :
      {A : Type 0} (raw : Session → Action W A)
      → ((s : Session) (w : W) → durable (raw s w).1 ≡ durable w)
      → RunsInside (with_session api raw) raw
  RunsInside-with_session raw keeps = record {
    on_session = λ s u w e. simp e;
    on_none = λ u w e. simp e;
    keeps = keeps;
  }

  pub RunsInside-pure : {A : Type 0} (r : Result A) → RunsInside (λ x. (r, x)) (λ _ w. (r, w))
  RunsInside-pure r = record {
    on_session = λ s u w e. refl;
    on_none = λ u w e. refl;
    keeps = λ s w. refl;
  }

  module _ {A B : Type 0} (f : A → Action (State api) B) (rest : A → Session → Action W B)
      (next : (a : A) → RunsInside (f a) (rest a)) where
    continue_on_session :
        (s : Session) (u : SqlalchemyUow Session Transaction) (r : Result A) (w : W)
        → u.session ≡ some s
        → continue f (r, (u, w)) ≡ (let (r', w') = continue (λ a. rest a s) (r, w) in (r', (u, w')))
    continue_on_session s u (ok a) w e = (next a).on_session s u w e
    continue_on_session s u (raise error) w e = refl

    continue_on_none :
        (u : SqlalchemyUow Session Transaction) (r : Result A) (w : W)
        → u.session ≡ none
        → (continue f (r, (u, w))).1 ≡ (u, w)
    continue_on_none u (ok a) w e = (next a).on_none u w e
    continue_on_none u (raise error) w e = refl

    continue_keeps :
        (s : Session) (r : Result A) (w : W)
        → durable (continue (λ a. rest a s) (r, w)).1 ≡ durable w
    continue_keeps s (ok a) w = (next a).keeps s w
    continue_keeps s (raise error) w = refl

    pub RunsInside-bind :
        {m : Action (State api) A} {raw : Session → Action W A}
        → RunsInside m raw
        → RunsInside (m >>= f) (λ s. raw s >>= λ a. rest a s)
    RunsInside-bind {m} {raw} first = record {
      on_session = λ s u w e.
          ap (continue f) (first.on_session s u w e)
          ∙ continue_on_session s u (raw s w).0 (raw s w).1 e;
      on_none = λ u w e.
          ap (λ x. (continue f ((m (u, w)).0, x)).1) (first.on_none u w e)
          ∙ continue_on_none u (m (u, w)).0 w e;
      keeps = λ s w. continue_keeps s (raw s w).0 (raw s w).1 ∙ first.keeps s w;
    }

  -- A change of the result.
  pub RunsInside-convert :
      {A B : Type 0} (g : Result A → Result B) {m : Action (State api) A}
      {raw : Session → Action W A}
      → RunsInside m raw
      → RunsInside (λ x. (g (m x).0, (m x).1)) (λ s w. (g (raw s w).0, (raw s w).1))
  RunsInside-convert g run = record {
    on_session = λ s u w e. ap (λ p. (g p.0, p.1)) (run.on_session s u w e);
    on_none = λ u w e. run.on_none u w e;
    keeps = λ s w. run.keeps s w;
  }

  module _ (view : Session → W → Db) (laws : IsTransactional api durable view) {A : Type 0}
      {body : Action (State api) A} {raw : Session → Action W A} (run : RunsInside body raw) where
    RunsInside-WorksInside : WorksInside api durable view laws body
    RunsInside-WorksInside = record {
      same_uow = λ u w. elim (Option-cases u.session) [
        | inl e ↦ ap (λ x. x.0) (run.on_none u w e)
        | inr (s, e) ↦ ap (λ x. x.1.0) (run.on_session s u w e)
      ];
      same_durable = λ u w. elim (Option-cases u.session) [
        | inl e ↦ ap (λ x. durable x.1) (run.on_none u w e)
        | inr (s, e) ↦ ap (λ x. durable x.1.1) (run.on_session s u w e) ∙ run.keeps s w
      ];
    }

    -- What `async with uow` returned is what the body returned on a session that saw the committed
    -- database, and what the session saw then is committed.
    pub with_uow_committed :
        (w : W) (a : A)
        → (with_uow (sqlalchemy_uow api) body (closed, w)).0 ≡ ok a
        → (s : Session) × (w₂ : W) × (view s w₂ ≡ durable w)
          × ((raw s w₂).0 ≡ ok a)
          × (durable (with_uow (sqlalchemy_uow api) body (closed, w)).1.1 ≡ view s (raw s w₂).1)
    with_uow_committed w a returned =
        let (s, t, w₂, seen, done, kept, _) =
          with_uow_returned api durable view laws body w a RunsInside-WorksInside returned in
        let runs = run.on_session s (opened api durable view laws s t) w₂ refl in
        (s, w₂, seen, ap (λ p. p.0) (sym runs) ∙ done, kept ∙ ap (λ p. view s p.1.1) runs)

    pub with_uow_undone :
        (w : W) (e : Exception)
        → (with_uow (sqlalchemy_uow api) body (closed, w)).0 ≡ raise e
        → durable (with_uow (sqlalchemy_uow api) body (closed, w)).1.1 ≡ durable w
    with_uow_undone w e raised =
        with_uow_raised api durable view laws body w e RunsInside-WorksInside raised

    -- Where the transaction is begun and committed, what the body returns is returned.
    pub with_uow_completes :
        (w : W) (a : A)
        → ((s : Session) (v : W) → (t : Transaction) × ((api.begin s v).0 ≡ ok t))
        → ((s : Session) (v : W) → (api.commit s v).0 ≡ ok tt)
        → ((s : Session) (v : W) → view s v ≡ durable w → (raw s v).0 ≡ ok a)
        → (with_uow (sqlalchemy_uow api) body (closed, w)).0 ≡ ok a
    unfolding with_uow create_transaction commit rollback close_transaction
    with_uow_completes w a begins commits returns =
        let s = (api.make_session w).0 in
        let w₁ = (api.make_session w).1 in
        let (t, began) = begins s w₁ in
        let w₂ = (api.begin s w₁).1 in
        let seen : view s w₂ ≡ durable w = laws.begin_view s w₁ t began ∙ laws.make_durable w in
        let w₃ = (raw s w₂).1 in
        ground (
          arith,
          began,
          returns s w₂ seen,
          run.on_session s (opened api durable view laws s t) w₂ refl,
          commits s w₃,
          laws.close_returns s (api.commit s w₃).1,
        )

    -- Where the body returns on every session that sees the committed database, so does the whole.
    pub with_uow_succeeds :
        (w : W)
        → ((s : Session) (v : W) → (t : Transaction) × ((api.begin s v).0 ≡ ok t))
        → ((s : Session) (v : W) → (api.commit s v).0 ≡ ok tt)
        → ((s : Session) (v : W) → view s v ≡ durable w → (a : A) × ((raw s v).0 ≡ ok a))
        → (a : A) × ((with_uow (sqlalchemy_uow api) body (closed, w)).0 ≡ ok a)
    unfolding with_uow create_transaction commit rollback close_transaction
    with_uow_succeeds w begins commits returns =
        let s = (api.make_session w).0 in
        let w₁ = (api.make_session w).1 in
        let (t, began) = begins s w₁ in
        let w₂ = (api.begin s w₁).1 in
        let seen : view s w₂ ≡ durable w = laws.begin_view s w₁ t began ∙ laws.make_durable w in
        let w₃ = (raw s w₂).1 in
        let (a, returned) = returns s w₂ seen in
        (
          a,
          ground (
            arith,
            began,
            returned,
            run.on_session s (opened api durable view laws s t) w₂ refl,
            commits s w₃,
            laws.close_returns s (api.commit s w₃).1,
          ),
        )

    -- Where the transaction is begun and rolled back, what the body raises is raised.
    pub with_uow_refuses :
        (w : W) (e : Exception)
        → ((s : Session) (v : W) → (t : Transaction) × ((api.begin s v).0 ≡ ok t))
        → ((s : Session) (v : W) → (api.rollback s v).0 ≡ ok tt)
        → ((s : Session) (v : W) → view s v ≡ durable w → (raw s v).0 ≡ raise e)
        → (with_uow (sqlalchemy_uow api) body (closed, w)).0 ≡ raise e
    unfolding with_uow create_transaction commit rollback close_transaction
    with_uow_refuses w e begins rolls_back raises =
        let s = (api.make_session w).0 in
        let w₁ = (api.make_session w).1 in
        let (t, began) = begins s w₁ in
        let w₂ = (api.begin s w₁).1 in
        let seen : view s w₂ ≡ durable w = laws.begin_view s w₁ t began ∙ laws.make_durable w in
        let w₃ = (raw s w₂).1 in
        ground (
          arith,
          began,
          raises s w₂ seen,
          run.on_session s (opened api durable view laws s t) w₂ refl,
          rolls_back s w₃,
          laws.close_returns s (api.rollback s w₃).1,
        )
