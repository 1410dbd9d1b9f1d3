-- ===== src/Adapters/Database/Uow.antt =====
-- library/adapters/database/uow.py: `SqlalchemyUow`. sqlalchemy's session is a parameter, over a
-- world that holds the database and what the sessions have not committed.
pub mod Atomic
pub mod Inside
pub mod InMemory
mod Tests
use example_litestar_service.Prelude.{Option, none, some}
use example_litestar_service.Application.Exceptions.{other_error}
use example_litestar_service.Application.Result.{
  Result, ok, raise, Action, pure, throw, ◌>>=◌, ◌>>◌,
}
use example_litestar_service.Domains.Uow.{AbstractUow}

-- What the program calls of `AsyncSession` and of `async_sessionmaker`.
pub record SessionApi (W Session Transaction : Type 0) : Type 0 where
  pub make_session : W → Session × W
  pub begin : Session → Action W Transaction
  pub commit : Session → Action W (Unit {0})
  pub rollback : Session → Action W (Unit {0})
  pub close : Session → Action W (Unit {0})

-- The fields `_session` and `_transaction`.
pub record SqlalchemyUow (Session Transaction : Type 0) : Type 0 where
  pub session : Option Session
  pub transaction : Option Transaction

-- Those of `__init__`, and of a unit of work that is closed.
abbrev pub closed : {Session Transaction : Type 0} → SqlalchemyUow Session Transaction
closed = record { session = none; transaction = none }

module _ {W Session Transaction : Type 0} (api : SessionApi W Session Transaction) where
  abbrev pub State : Type 0
  State = SqlalchemyUow Session Transaction × W

  -- A call of the session of the unit of work, through the property `session`.
  abbrev pub with_session : {A : Type 0} → (Session → Action W A) → Action State A
  with_session f (u, w) = elim u.session [
    | none ↦ (raise (other_error "Session is not created"), (u, w))
    | some s ↦ let (r, w') = f s w in (r, (u, w'))
  ]

  abbrev set_session : Option Session → Action State (Unit {0})
  set_session session (u, w) = (ok tt, (record u { session = session }, w))

  abbrev set_transaction : Option Transaction → Action State (Unit {0})
  set_transaction transaction (u, w) = (ok tt, (record u { transaction = transaction }, w))

  -- `self._transaction = await self.session.begin()`
  abbrev begin_transaction : Action State (Unit {0})
  begin_transaction = do transaction ← with_session api.begin; set_transaction (some transaction)

  -- `self._session = self._session_factory()`
  abbrev open_session : Action State (Unit {0})
  open_session (u, w) =
      let (s, w') = api.make_session w in (ok tt, (record u { session = some s }, w'))

  unfoldable pub commit : Action State (Unit {0})
  commit = with_session api.commit

  unfoldable pub rollback : Action State (Unit {0})
  rollback = do with_session api.rollback; set_transaction none

  abbrev when_open : Option Transaction → Action State (Unit {0})
  when_open (some _) = throw (other_error "Session is already in transaction")
  when_open none = begin_transaction

  unfoldable pub create_transaction : Action State (Unit {0})
  create_transaction (u, w) = elim u.session [
    | some _ ↦ when_open u.transaction (u, w)
    | none ↦ (open_session >> begin_transaction) (u, w)
  ]

  unfoldable pub close_transaction : Action State (Unit {0})
  close_transaction = do with_session api.close; set_transaction none; set_session none

  abbrev pub sqlalchemy_uow : AbstractUow State
  sqlalchemy_uow = record {
    create_transaction = create_transaction;
    commit = commit;
    rollback = rollback;
    close_transaction = close_transaction;
  }
