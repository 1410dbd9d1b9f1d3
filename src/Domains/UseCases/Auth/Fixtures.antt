-- ===== src/Domains/UseCases/Auth/Fixtures.antt =====
-- One stored user, for the tests of what library/domains/use_cases/commands/auth is used for.
use example_litestar_service.Prelude.{
  str_eq, eq_refl, refl, true, false, none, some, if◌then◌else◌, [],
}
use example_litestar_service.Domains.Entities.User.{UserCredentials, User}
use example_litestar_service.Domains.Storages.{IUserStorage}
use example_litestar_service.Domains.Uow.{AbstractUow}
use example_litestar_service.Application.Result.{ok, pure}
use example_litestar_service.Domains.UseCases.Auth.{CryptContext}

abbrev pub plain_text : CryptContext
plain_text = record {
  hash = λ salt password. password;
  verify = λ password hash. ok (str_eq password hash);
  verify-hash = λ salt password. rw (eq_refl password) refl;
}

abbrev pub no_transactions : AbstractUow (Unit {0})
no_transactions = record {
  create_transaction = pure tt;
  commit = pure tt;
  rollback = pure tt;
  close_transaction = pure tt;
}

abbrev pub jane : UserCredentials
jane = record {
  id = "u1";
  username = "jane";
  password_hash = "pride";
  is_superuser = false;
  permissions = λ _. true;
}

abbrev pub jane_user : User
jane_user = record {
  id = "u1";
  username = "jane";
  email = "jane@example.org";
  is_superuser = false;
  permissions = λ _. true;
  created_at = 1;
  updated_at = 1;
}

-- A storage that has one user.
abbrev pub one_user : IUserStorage (Unit {0})
one_user = record {
  fetch_user_by_id = λ id. pure (some jane_user);
  fetch_user_credentials_by_username =
      λ username. pure (if str_eq username "jane" then some jane else none);
  count_users = λ params. pure 1;
  fetch_user_list = λ params. pure [];
  create_user = λ user. pure jane_user;
  delete_user_by_id = λ id. pure tt;
  update_user_by_id = λ user. pure jane_user;
  exists_user_by_id = λ id. pure true;
}
