-- ===== src/Adapters/Database/Uow/InMemory.antt =====
-- For the tests of library/adapters/database: a database in memory, with what is committed beside
-- what the open transaction sees.
use example_litestar_service.Prelude.{refl}
use example_litestar_service.Application.Result.{Result, ok}
use example_litestar_service.Adapters.Database.Uow.{SessionApi}
use example_litestar_service.Adapters.Database.Uow.Atomic.{IsTransactional}

module _ (Db : Type 0) where
  abbrev pub World : Type 0
  World = Db × Db

  abbrev pub durable : World → Db
  durable w = w.0

  abbrev pub view : Unit {0} → World → Db
  view s w = w.1

  abbrev pub world_api : SessionApi World (Unit {0}) (Unit {0})
  world_api = record {
    make_session = λ w. (tt, w);
    begin = λ s w. (ok tt, (w.0, w.0));
    commit = λ s w. (ok tt, (w.1, w.1));
    rollback = λ s w. (ok tt, (w.0, w.0));
    close = λ s w. (ok tt, w);
  }

  pub world_api-IsTransactional : IsTransactional world_api durable view
  world_api-IsTransactional = record {
    make_durable = λ w. refl;
    begin_durable = λ s w. refl;
    begin_view = λ s w t e. refl;
    commit_durable = λ s w e. refl;
    commit_failed = λ s w e h. absurd (cc);
    rollback_durable = λ s w. refl;
    close_durable = λ s w. refl;
    close_returns = λ s w. refl;
  }

  -- A result, with what the transaction sees from then on.
  abbrev pub beside : {A : Type 0} → Db → Result A × Db → Result A × World
  beside committed (r, seen) = (r, (committed, seen))
