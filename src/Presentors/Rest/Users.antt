-- ===== src/Presentors/Rest/Users.antt =====
-- library/presentors/rest/routers/api/v1/endpoints/users.py and schemas/users.py. Whether a text
-- is an e-mail address, and its normal form, is pydantic's: the parameter `parse_email`.
pub mod Conflicts
use example_litestar_service.Prelude.{ℕ, ℤ, String, false, not, ◌&&◌, Option, none, some, List, map}
use example_litestar_service.Domains.Entities.Book.{Datetime, Given, unset, null, given}
use example_litestar_service.Domains.Entities.User.{User, UserId, UserPagination}
use example_litestar_service.Domains.Storages.{IUserStorage}
use example_litestar_service.Domains.Uow.{AbstractUow}
use example_litestar_service.Domains.UseCases.{
  create_user_command, delete_user_by_id_command, update_user_by_id_command, fetch_user_by_id_query,
  fetch_user_list_query,
}
use example_litestar_service.Application.Exceptions.{empty_payload}
use example_litestar_service.Application.Result.{Action, pure, require, lift, ◌>>=◌, ◌>>◌}
use example_litestar_service.Presentors.Rest.Books.{is_unset}
use example_litestar_service.Presentors.Rest.Params.{check_window, text_field, email_field, valid}

pub record UserSchema : Type 0 where
  pub id : UserId
  pub username : String
  pub email : String
  pub created_at : Datetime
  pub updated_at : Datetime

pub record UserPaginationSchema : Type 0 where
  pub total : ℕ
  pub items : List UserSchema

pub record CreateUserSchema : Type 0 where
  pub username : String
  pub email : String

pub record UpdateUserSchema : Type 0 where
  pub username : Given String
  pub email : Given String

-- `UserSchema.model_validate`
abbrev pub user_schema : User → UserSchema
user_schema user = record {
  id = user.id;
  username = user.username;
  email = user.email;
  created_at = user.created_at;
  updated_at = user.updated_at;
}

abbrev pub user_pagination_schema : UserPagination → UserPaginationSchema
user_pagination_schema page = record { total = page.total; items = map user_schema page.items }

-- A constraint on a field that may be left out or null.
abbrev pub when_given : {A B : Type 0} → (A → Option B) → Given A → Option (Given B)
when_given check unset = some unset
when_given check null = some null
when_given check (given a) = elim (check a) [ none ↦ none | some b ↦ some (given b) ]

-- `UsersController`
module _ {S : Type 0} (uow : AbstractUow S) (storage : IUserStorage S)
    (parse_email : String → Option String) (detail : String) where
  unfoldable pub fetch_users : (limit offset : Option ℤ) → Action S UserPaginationSchema
  unfolding check_window fetch_user_list_query
  fetch_users limit offset = do
    (l, o) ← lift (check_window detail limit offset)
    users ← fetch_user_list_query uow storage (record { limit = l; offset = o })
    pure (user_pagination_schema users)

  unfoldable pub create_user : CreateUserSchema → Action S UserSchema
  unfolding create_user_command
  create_user payload = do
    username ← valid detail (text_field 3 255 payload.username)
    email ← valid detail (email_field parse_email payload.email)
    user ← create_user_command uow storage (record {
      username = username;
      email = email;
      password_hash = none;
      is_superuser = false;
      permissions = λ _. false;
    })
    pure (user_schema user)

  unfoldable pub fetch_user : UserId → Action S UserSchema
  unfolding fetch_user_by_id_query
  fetch_user user_id = do user ← fetch_user_by_id_query uow storage user_id; pure (user_schema user)

  unfoldable pub update_user_by_id : UserId → UpdateUserSchema → Action S UserSchema
  unfolding update_user_by_id_command
  update_user_by_id user_id payload = do
    username ← valid detail (when_given (text_field 3 255) payload.username)
    email ← valid detail (when_given (email_field parse_email) payload.email)
    require (not (is_unset payload.username && is_unset payload.email))
        (empty_payload "No values to update")
    user ←
        update_user_by_id_command uow storage
          (record { id = user_id; username = username; email = email })
    pure (user_schema user)

  unfoldable pub delete_user_by_id : UserId → Action S (Unit {0})
  unfolding delete_user_by_id_command
  delete_user_by_id user_id = delete_user_by_id_command uow storage user_id
