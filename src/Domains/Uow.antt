-- ===== src/Domains/Uow.antt =====
-- library/domains/uow.py: `AbstractUow`, and what `async with uow` does with its body.
use example_litestar_service.Application.Result.{Action, ok, raise, pure, throw, ◌>>◌}

-- The abstract methods, over a state that holds the unit of work and the database.
pub record AbstractUow (S : Type 0) : Type 0 where
  pub create_transaction : Action S (Unit {0})
  pub commit : Action S (Unit {0})
  pub rollback : Action S (Unit {0})
  pub close_transaction : Action S (Unit {0})

module _ {S : Type 0} (uow : AbstractUow S) where
  -- `__aenter__`
  unfoldable pub aenter : Action S (Unit {0})
  aenter = uow.create_transaction

  -- `__aexit__` of a body that returned.
  unfoldable pub aexit_returned : Action S (Unit {0})
  aexit_returned = do uow.commit; uow.close_transaction

  -- `__aexit__` of a body that raised.
  unfoldable pub aexit_raised : Action S (Unit {0})
  aexit_raised = do uow.rollback; uow.close_transaction

  -- `async with uow: body`. An exception of `__aenter__` leaves the body out, and one of
  -- `__aexit__` takes the place of the body's result.
  unfoldable pub with_uow : {A : Type 0} → Action S A → Action S A
  unfolding aenter aexit_returned aexit_raised
  with_uow body = do
    aenter
    λ s.
        let (r, s') = body s in
        elim r [ ok a ↦ (aexit_returned >> pure a) s' | raise e ↦ (aexit_raised >> throw e) s' ]
