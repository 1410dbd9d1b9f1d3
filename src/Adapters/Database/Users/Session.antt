-- ===== src/Adapters/Database/Users/Session.antt =====
-- UserStorage (library/adapters/database/storages/user.py) on the session of its unit of work: its
-- property `_session`. What each method does there is what it does on that session itself.
use example_litestar_service.Prelude.{ℕ, ◌≡◌, String, Bool, true, false, List, [], ◌∷◌}
use example_litestar_service.Domains.Entities.User.{CreateUser, UpdateUser, UserId}
use example_litestar_service.Domains.Services
use example_litestar_service.Domains.Storages.{IUserStorage}
use example_litestar_service.Adapters.Database.Uow.{SessionApi, State, with_session}
use example_litestar_service.Adapters.Database.Uow.Inside.{
  RunsInside, RunsInside-with_session, RunsInside-pure, RunsInside-bind, RunsInside-convert,
}
use example_litestar_service.Adapters.Database.Users.{
  UserRow, convert, one_or_not_found, UserSession, UserValues, Condition, Assignment, user_storage,
  fetch_user_credentials_by_username, exists_user_by_id, create_user, update_user_by_id,
}

module _ {W Session Transaction : Type 0} (api : SessionApi W Session Transaction)
    (sql : Session → UserSession W) where
  -- `self._session` of the storage is `self._uow.session`.
  abbrev pub session_of_uow : UserSession (State api)
  session_of_uow = record {
    select = λ conditions. with_session api (λ s. (sql s).select conditions);
    select_page = λ conditions limit offset.
        with_session api (λ s. (sql s).select_page conditions limit offset);
    exists = λ conditions. with_session api (λ s. (sql s).exists conditions);
    count = λ conditions. with_session api (λ s. (sql s).count conditions);
    insert = λ values. with_session api (λ s. (sql s).insert values);
    update =
        λ conditions assignments. with_session api (λ s. (sql s).update conditions assignments);
  }

-- None of these statements commits.
pub record KeepsDurable {W Db : Type 0} (session : UserSession W) (durable : W → Db) : Type 0 where
  pub select_keeps :
      (conditions : List Condition) (w : W) → durable (session.select conditions w).1 ≡ durable w
  pub exists_keeps :
      (conditions : List Condition) (w : W) → durable (session.exists conditions w).1 ≡ durable w
  pub insert_keeps : (values : UserValues) (w : W) → durable (session.insert values w).1 ≡ durable w
  pub update_keeps :
      (conditions : List Condition) (assignments : List Assignment) (w : W)
      → durable (session.update conditions assignments w).1 ≡ durable w

module _ {W Session Transaction Db : Type 0} (api : SessionApi W Session Transaction)
    (durable : W → Db) (sql : Session → UserSession W) (now : ℕ)
    (keeps : (s : Session) → KeepsDurable (sql s) durable) where
  abbrev storage : IUserStorage (State api)
  storage = user_storage (session_of_uow api sql) now

  abbrev on : Session → IUserStorage W
  on s = user_storage (sql s) now

  pub create_user-RunsInside :
      (user : CreateUser)
      → RunsInside api durable (storage.create_user user) (λ s. (on s).create_user user)
  unfolding create_user
  create_user-RunsInside user =
      RunsInside-bind api durable _ _ (λ row. RunsInside-pure api durable _)
        (RunsInside-convert api durable convert
          (RunsInside-with_session api durable _ (λ s. (keeps s).insert_keeps _)))

  pub credentials-RunsInside :
      (username : String)
      → RunsInside api durable
          (storage.fetch_user_credentials_by_username username)
          (λ s. (on s).fetch_user_credentials_by_username username)
  unfolding fetch_user_credentials_by_username
  credentials-RunsInside username =
      RunsInside-bind api durable _ _ (λ rows. RunsInside-pure api durable _)
        (RunsInside-with_session api durable _ (λ s. (keeps s).select_keeps _))

  exists-RunsInside :
      (id : UserId)
      → RunsInside api durable (storage.exists_user_by_id id) (λ s. (on s).exists_user_by_id id)
  unfolding exists_user_by_id
  exists-RunsInside id =
      RunsInside-bind api durable _ _ (λ found. RunsInside-pure api durable _)
        (RunsInside-with_session api durable _ (λ s. (keeps s).exists_keeps _))

  one-RunsInside :
      (id : UserId) (rows : List UserRow)
      → RunsInside api durable (one_or_not_found id rows) (λ _. one_or_not_found id rows)
  one-RunsInside id [] = RunsInside-pure api durable _
  one-RunsInside id (row ∷ []) = RunsInside-pure api durable _
  one-RunsInside id (_ ∷ _ ∷ _) = RunsInside-pure api durable _

  update-RunsInside :
      (u : UpdateUser)
      → RunsInside api durable (storage.update_user_by_id u) (λ s. (on s).update_user_by_id u)
  unfolding update_user_by_id
  update-RunsInside u =
      RunsInside-bind api durable _ _
        (λ rows.
          RunsInside-bind api durable _ _ (λ row. RunsInside-pure api durable _)
            (one-RunsInside u.id rows))
        (RunsInside-with_session api durable _ (λ s. (keeps s).update_keeps _ _))

  check-RunsInside :
      (id : UserId) (exists : Bool)
      → RunsInside api durable
          (Services.check_exists "User" id exists)
          (λ _. Services.check_exists "User" id exists)
  check-RunsInside id true = RunsInside-pure api durable _
  check-RunsInside id false = RunsInside-pure api durable _

  pub update_user_by_id-RunsInside :
      (u : UpdateUser)
      → RunsInside api durable
          (Services.update_user_by_id storage u)
          (λ s. Services.update_user_by_id (on s) u)
  unfolding Services.update_user_by_id
  update_user_by_id-RunsInside u =
      RunsInside-bind api durable _ _
        (λ exists.
          RunsInside-bind api durable _ _ (λ _. update-RunsInside u) (check-RunsInside u.id exists))
        (exists-RunsInside u.id)
