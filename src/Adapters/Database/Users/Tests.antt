-- ===== src/Adapters/Database/Users/Tests.antt =====
-- The storage of library/adapters/database/storages/user.py on a table in memory.
use example_litestar_service.Prelude.{◌≡◌, refl, false, [], ◌∷◌, str_eq, eq_refl}
use example_litestar_service.Domains.Entities.User.{User, RegisterUser}
use example_litestar_service.Domains.UseCases.Auth.{CryptContext}
use example_litestar_service.Application.Result.{ok}
use example_litestar_service.Adapters.Database.Uow.InMemory
use example_litestar_service.Adapters.Database.Users.Memory.{
  Rows, lifted, lifted-KeepsDurable, lifted-IsUserDatabase, former,
}
use example_litestar_service.Adapters.Database.Users.Credentials.{
  registration, logging_in, login_user-register_user,
}

abbrev plain_text : CryptContext
plain_text = record {
  hash = λ salt password. password;
  verify = λ password hash. ok (str_eq password hash);
  verify-hash = λ salt password. rw (eq_refl password) refl;
}

abbrev fanny : RegisterUser
fanny = record { username = "fanny"; email = "fanny@example.org"; password = "mansfield" }

login_user-register_user_example :
    let (r, w) =
      registration
        (InMemory.world_api Rows)
        lifted
        9
        (InMemory.durable Rows)
        (InMemory.view Rows)
        (InMemory.world_api-IsTransactional Rows)
        lifted-KeepsDurable
        lifted-IsUserDatabase
        plain_text
        (λ s v. (tt, refl))
        (λ s v. refl)
        7
        fanny
        (former ∷ [], []) in
    (created : User) × (r ≡ ok created)
    × (created.username ≡ "fanny")
    × (logging_in
          (InMemory.world_api Rows)
          lifted
          9
          (InMemory.durable Rows)
          (InMemory.view Rows)
          (InMemory.world_api-IsTransactional Rows)
          lifted-KeepsDurable
          lifted-IsUserDatabase
          plain_text
          (λ s v. (tt, refl))
          (λ s v. refl)
          (record { username = "fanny"; password = "mansfield" })
          w
        ≡ ok (record { id = created.id; is_superuser = false; permissions = λ _. false }))
login_user-register_user_example =
    login_user-register_user (InMemory.world_api Rows) lifted 9 (InMemory.durable Rows)
      (InMemory.view Rows) (InMemory.world_api-IsTransactional Rows) lifted-KeepsDurable
      lifted-IsUserDatabase plain_text (λ s v. (tt, refl)) (λ s v. refl) 7 fanny (former ∷ [], [])
      refl refl refl
