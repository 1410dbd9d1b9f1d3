-- ===== src/Adapters/Database/Books/Lifted.antt =====
-- Committed rows beside those that the open transaction sees, for the tests: the statements of a
-- table in memory work on the latter.
use example_litestar_service.Prelude.{refl, ap, List}
use example_litestar_service.Application.Result.{Result}
use example_litestar_service.Adapters.Database.Uow.{SessionApi}
use example_litestar_service.Adapters.Database.Uow.InMemory
use example_litestar_service.Adapters.Database.Uow.Atomic.{IsTransactional}
use example_litestar_service.Adapters.Database.Books.{BookRow, BookSession}
use example_litestar_service.Adapters.Database.Books.Engine.{IsBookDatabase}
use example_litestar_service.Adapters.Database.Books.Session.{KeepsDurable}

abbrev pub World : Type 0
World = InMemory.World (List BookRow)

abbrev pub durable : World → List BookRow
durable = InMemory.durable (List BookRow)

abbrev pub view : Unit {0} → World → List BookRow
view = InMemory.view (List BookRow)

abbrev pub world_api : SessionApi World (Unit {0}) (Unit {0})
world_api = InMemory.world_api (List BookRow)

pub world_api-IsTransactional : IsTransactional world_api durable view
world_api-IsTransactional = InMemory.world_api-IsTransactional (List BookRow)

abbrev beside : {A : Type 0} → List BookRow → Result A × List BookRow → Result A × World
beside = InMemory.beside (List BookRow)

module _ (session : BookSession (List BookRow)) where
  abbrev pub lifted : BookSession World
  lifted = record {
    select = λ conditions w. beside w.0 (session.select conditions w.1);
    select_page_by_id = λ conditions limit offset w.
        beside w.0 (session.select_page_by_id conditions limit offset w.1);
    exists = λ conditions w. beside w.0 (session.exists conditions w.1);
    count = λ conditions w. beside w.0 (session.count conditions w.1);
    insert = λ values w. beside w.0 (session.insert values w.1);
    update = λ conditions assignments w. beside w.0 (session.update conditions assignments w.1);
    insert_or_ignore = λ books w. beside w.0 (session.insert_or_ignore books w.1);
  }

  pub lifted-KeepsDurable : KeepsDurable lifted durable
  lifted-KeepsDurable = record {
    select_keeps = λ conditions w. refl;
    select_page_by_id_keeps = λ conditions limit offset w. refl;
    exists_keeps = λ conditions w. refl;
    count_keeps = λ conditions w. refl;
    insert_keeps = λ values w. refl;
    update_keeps = λ conditions assignments w. refl;
    insert_or_ignore_keeps = λ books w. refl;
  }

  pub lifted-IsBookDatabase :
      IsBookDatabase session (λ rows. rows) → IsBookDatabase lifted (λ w. w.1)
  lifted-IsBookDatabase db = record {
    select_lem = λ conditions w. ap (beside w.0) (db.select_lem conditions w.1);
    select_page_by_id_lem = λ conditions limit offset w.
        ap (beside w.0) (db.select_page_by_id_lem conditions limit offset w.1);
    exists_lem = λ conditions w. ap (beside w.0) (db.exists_lem conditions w.1);
    count_lem = λ conditions w. ap (beside w.0) (db.count_lem conditions w.1);
    insert_too_big = λ book w big.
        let (detail, e) = db.insert_too_big book w.1 big in (detail, ap (beside w.0) e);
    insert_taken = λ book w small taken. ap (beside w.0) (db.insert_taken book w.1 small taken);
    insert_lem = λ book w small free. db.insert_lem book w.1 small free;
    update_null = λ conditions assignments w there nulls.
        let (error, e) = db.update_null conditions assignments w.1 there nulls in
        (error, ap (beside w.0) e);
    update_lem = λ conditions assignments w returned no_null e.
        db.update_lem conditions assignments w.1 returned no_null e;
    update_deleted = λ conditions t w. db.update_deleted conditions t w.1;
    insert_or_ignore_lem = λ book books w fit. db.insert_or_ignore_lem book books w.1 fit;
  }
