-- ===== src/Presentors/Auth/Endpoints.antt =====
-- The endpoints of `AuthController` (library/presentors/rest/routers/auth/controller.py); `refresh`
-- is among the tokens.
pub mod Sessions
use example_litestar_service.Prelude.{ℕ, String, Bool, Option, none, some, List, [], ◌∷◌, sort_by}
use example_litestar_service.Domains.Entities.Book.{Datetime}
use example_litestar_service.Domains.Entities.Permission.{
  AuthUser, Permission, manage_books, elements, permission_value,
}
use example_litestar_service.Domains.Entities.User.{UserId}
use example_litestar_service.Domains.Storages.{IUserStorage}
use example_litestar_service.Domains.Uow.{AbstractUow}
use example_litestar_service.Domains.UseCases.Auth.{CryptContext, login_user, register_user}
use example_litestar_service.Application.Exceptions.{other_error}
use example_litestar_service.Application.Result.{
  Result, ok, raise, bind_result, Action, pure, throw, ◌>>=◌,
}
use example_litestar_service.Presentors.Auth.Guards.{permission_guard}
use example_litestar_service.Presentors.Auth.Tokens.{
  Jwt, AuthConfig, TokenPairSchema, create_token_pair, authenticate,
}
use example_litestar_service.Presentors.Rest.Params.{text_field, email_field, valid}

pub record RegisterRequestSchema : Type 0 where
  pub username : String
  pub email : String
  pub password : String

pub record RegisteredUserSchema : Type 0 where
  pub id : UserId
  pub username : String
  pub email : String
  pub created_at : Datetime

pub record LoginRequestSchema : Type 0 where
  pub username : String
  pub password : String

pub record WhoAmISchema : Type 0 where
  pub id : String
  pub is_superuser : Bool
  pub permissions : List Permission

pub record AdminZoneSchema : Type 0 where
  pub status : String

-- Building `RegisteredUserSchema` checks the address again; a failure there is no invalid request.
abbrev shown_email : {S : Type 0} → Option String → Action S String
shown_email none = throw (other_error "ValidationError")
shown_email (some email) = pure email

module _ {S : Type 0} (uow : AbstractUow S) (storage : IUserStorage S) (crypt : CryptContext) where
  -- `AuthController.register`
  unfoldable pub register :
      (parse_email : String → Option String) (detail : String) (salt : ℕ)
      → RegisterRequestSchema
      → Action S RegisteredUserSchema
  unfolding register_user
  register parse_email detail salt payload = do
    username ← valid detail (text_field 3 255 payload.username)
    email ← valid detail (email_field parse_email payload.email)
    password ← valid detail (text_field 8 255 payload.password)
    user ←
        register_user uow storage crypt salt
          (record { username = username; email = email; password = password })
    shown ← shown_email (parse_email user.email)
    pure (record {
      id = user.id;
      username = user.username;
      email = shown;
      created_at = user.created_at;
    })

  -- `AuthController.login`
  unfoldable pub login :
      {Encoded : Type 0}
      → Jwt Encoded
      → AuthConfig
      → (secret : String) (now : ℕ) → LoginRequestSchema
      → Action S (TokenPairSchema Encoded)
  unfolding login_user create_token_pair
  login jwt auth_config secret now payload = do
    auth_user ←
        login_user uow storage crypt
          (record { username = payload.username; password = payload.password })
    pure (create_token_pair jwt auth_config secret now auth_user)

-- `AuthController.me`, for the user of the request.
unfoldable pub me : AuthUser → WhoAmISchema
unfolding sort_by
me user = record {
  id = user.id;
  is_superuser = user.is_superuser;
  permissions = sort_by permission_value (elements user.permissions);
}

-- `AuthController.admin_zone`, behind its guard.
unfoldable pub admin_zone : AuthUser → Result AdminZoneSchema
unfolding permission_guard
admin_zone user =
    bind_result (permission_guard (manage_books ∷ []) user)
      λ _. ok (record { status = "you are in" })

-- The two requests with a bearer token, through the middleware.
module _ {Encoded : Type 0} (jwt : Jwt Encoded) (secret : String) (now : ℕ) (bearer : Encoded) where
  unfoldable pub request_me : Result WhoAmISchema
  unfolding authenticate me
  request_me = bind_result (authenticate jwt secret now bearer) λ user. ok (me user)

  unfoldable pub request_admin_zone : Result AdminZoneSchema
  unfolding authenticate admin_zone
  request_admin_zone = bind_result (authenticate jwt secret now bearer) λ user. admin_zone user
