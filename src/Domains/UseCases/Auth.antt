-- ===== src/Domains/UseCases/Auth.antt =====
-- library/domains/use_cases/commands/auth. passlib's `CryptContext` is a parameter.
pub mod Laws
pub mod Fixtures
mod Tests
use example_litestar_service.Prelude.{ℕ, ◌≡◌, String, Bool, true, false, Option, none, some}
use example_litestar_service.Domains.Entities.Permission.{AuthUser}
use example_litestar_service.Domains.Entities.User.{
  User, UserCredentials, CreateUser, RegisterUser, LoginUser,
}
use example_litestar_service.Domains.Storages.{IUserStorage}
use example_litestar_service.Domains.Uow.{AbstractUow, with_uow}
use example_litestar_service.Application.Exceptions.{Exception, invalid_credentials, unknown_hash}
use example_litestar_service.Application.Result.{
  Result, ok, raise, Action, pure, throw, lift, ◌>>=◌,
}

-- `hash` draws a salt; `verify` may raise.
pub record CryptContext : Type 0 where
  pub hash : (salt : ℕ) → String → String
  pub verify : (password hash : String) → Result Bool
  pub verify-hash : (salt : ℕ) (password : String) → verify password (hash salt password) ≡ ok true

abbrev pub bad_login : Exception
bad_login = invalid_credentials "Invalid username or password"

-- `except UnknownHashError`
abbrev pub convert_unknown_hash : Result Bool → Result Bool
convert_unknown_hash (ok valid) = ok valid
convert_unknown_hash (raise unknown_hash) = raise bad_login
convert_unknown_hash (raise e) = raise e

-- `if not valid: raise …`, and the user that is returned.
abbrev pub accept : UserCredentials → Result Bool → Result AuthUser
accept credentials (ok false) = raise bad_login
accept credentials (ok true) = ok (record {
  id = credentials.id;
  is_superuser = credentials.is_superuser;
  permissions = credentials.permissions;
})
accept credentials (raise e) = raise e

-- What `LoginUserCommand.execute` does after `async with`.
unfoldable pub check_credentials :
    CryptContext → (password : String) → Option UserCredentials → Result AuthUser
check_credentials crypt password none = raise bad_login
check_credentials crypt password (some credentials) =
    accept credentials (convert_unknown_hash (crypt.verify password credentials.password_hash))

module _ {S : Type 0} (uow : AbstractUow S) (storage : IUserStorage S) (crypt : CryptContext) where
  -- `LoginUserCommand.execute`
  unfoldable pub login_user : LoginUser → Action S AuthUser
  unfolding check_credentials with_uow
  login_user input_dto = do
    credentials ← with_uow uow (storage.fetch_user_credentials_by_username input_dto.username)
    lift (check_credentials crypt input_dto.password credentials)

  -- `RegisterUserCommand.execute`; the `except` of its body raises the same exception again.
  unfoldable pub register_user : (salt : ℕ) → RegisterUser → Action S User
  unfolding with_uow
  register_user salt input_dto =
      let password_hash = crypt.hash salt input_dto.password in
      with_uow uow (
        storage.create_user (record {
          username = input_dto.username;
          email = input_dto.email;
          password_hash = some password_hash;
          is_superuser = false;
          permissions = λ _. false;
        }))
