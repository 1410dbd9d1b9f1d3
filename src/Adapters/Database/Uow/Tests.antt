-- ===== src/Adapters/Database/Uow/Tests.antt =====
-- The unit of work of library/adapters/database/uow.py over a database that holds one number.
use example_litestar_service.Prelude.{ℕ, ◌≡◌, refl, ◌+◌}
use example_litestar_service.Application.Exceptions.{library_error, database_error}
use example_litestar_service.Application.Result.{ok, raise, Action}
use example_litestar_service.Domains.Uow.{with_uow, aenter, aexit_returned, aexit_raised}
use example_litestar_service.Adapters.Database.Uow.{
  SessionApi, State, closed, with_session, sqlalchemy_uow, create_transaction, commit, rollback,
  close_transaction,
}
use example_litestar_service.Adapters.Database.Uow.Atomic.{
  IsTransactional, WorksInside, opened, with_uow_raised, with_uow_returned,
}

-- What is committed, and what the session sees.
abbrev World : Type 0
World = ℕ × ℕ

abbrev number_api : SessionApi World (Unit {0}) (Unit {0})
number_api = record {
  make_session = λ w. (tt, w);
  begin = λ s w. (ok tt, (w.0, w.0));
  commit = λ s w. (ok tt, (w.1, w.1));
  rollback = λ s w. (ok tt, (w.0, w.0));
  close = λ s w. (ok tt, w);
}

abbrev durable : World → ℕ
durable w = w.0

abbrev view : Unit {0} → World → ℕ
view s w = w.1

number_api-IsTransactional : IsTransactional number_api durable view
number_api-IsTransactional = record {
  make_durable = λ w. refl;
  begin_durable = λ s w. refl;
  begin_view = λ s w t e. refl;
  commit_durable = λ s w e. refl;
  commit_failed = λ s w e h. absurd (cc);
  rollback_durable = λ s w. refl;
  close_durable = λ s w. refl;
  close_returns = λ s w. refl;
}

abbrev add_one : Action (State number_api) ℕ
add_one (u, (d, v)) = (ok v, (u, (d, v + 1)))

abbrev add_one_and_raise : Action (State number_api) ℕ
add_one_and_raise (u, (d, v)) = (raise (library_error "no"), (u, (d, v + 1)))

add_one-WorksInside : WorksInside number_api durable view number_api-IsTransactional add_one
add_one-WorksInside = record { same_uow = λ u w. refl; same_durable = λ u w. refl }

add_one_and_raise-WorksInside :
    WorksInside number_api durable view number_api-IsTransactional add_one_and_raise
add_one_and_raise-WorksInside = record { same_uow = λ u w. refl; same_durable = λ u w. refl }

with_uow_raised_example :
    durable (with_uow (sqlalchemy_uow number_api) add_one_and_raise (closed, (5, 5))).1.1 ≡ 5
unfolding with_uow aenter aexit_returned aexit_raised create_transaction commit rollback
    close_transaction
with_uow_raised_example =
    with_uow_raised number_api durable view number_api-IsTransactional add_one_and_raise (5, 5)
      (library_error "no") add_one_and_raise-WorksInside refl

with_uow_returned_example :
    (s : Unit {0}) × (t : Unit {0}) × (w : World) × (view s w ≡ 5)
    × ((add_one (opened number_api durable view number_api-IsTransactional s t, w)).0 ≡ ok 5)
    × (durable (with_uow (sqlalchemy_uow number_api) add_one (closed, (5, 5))).1.1
        ≡ view s (add_one (opened number_api durable view number_api-IsTransactional s t, w)).1.1)
    × ((with_uow (sqlalchemy_uow number_api) add_one (closed, (5, 5))).1.0 ≡ closed)
unfolding with_uow aenter aexit_returned aexit_raised create_transaction commit rollback
    close_transaction
with_uow_returned_example =
    with_uow_returned number_api durable view number_api-IsTransactional add_one (5, 5) 5
      add_one-WorksInside refl

-- The same database, on which every commit is refused.
abbrev refusing_api : SessionApi World (Unit {0}) (Unit {0})
refusing_api = record {
  make_session = λ w. (tt, w);
  begin = λ s w. (ok tt, (w.0, w.0));
  commit = λ s w. (raise (database_error "could not serialize access"), w);
  rollback = λ s w. (ok tt, (w.0, w.0));
  close = λ s w. (ok tt, w);
}

abbrev write_nine : Action (State refusing_api) ℕ
write_nine = with_session refusing_api (λ s w. (ok 1, (w.0, 9)))
