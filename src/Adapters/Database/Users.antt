-- ===== src/Adapters/Database/Users.antt =====
-- library/adapters/database/storages/user.py: `UserStorage`, on the table `users` of
-- library/adapters/database/tables.py. The session is a parameter, over a state `X`.
pub mod Engine
pub mod Rows
pub mod Session
pub mod Credentials
pub mod Memory
mod Tests
use example_litestar_service.Prelude.{
  str_eq, ℕ, String, Bool, true, false, ◌||◌, Option, none, some, List, [], ◌∷◌, map, head?,
  if◌then◌else◌,
}
use example_litestar_service.Domains.Entities.Book.{Datetime, Value}
use example_litestar_service.Domains.Entities.Permission.{
  frozenset, permission_values, parse_permissions,
}
use example_litestar_service.Domains.Entities.User.{
  User, UserCredentials, UserId, UserPaginationParams, CreateUser, UpdateUser, user_to_dict,
}
use example_litestar_service.Domains.Storages.{IUserStorage}
use example_litestar_service.Application.Exceptions.{
  Exception, entity_not_found, entity_already_exists, library_error, integrity_error, other_error,
}
use example_litestar_service.Application.Result.{
  Result, ok, raise, bind_result, Action, pure, throw, lift, ◌>>=◌, ◌>>◌,
}

pub record UserRow : Type 0 where
  pub id : UserId
  pub username : String
  pub email : String
  pub password_hash : Option String
  pub is_superuser : Bool
  pub permissions : List String
  pub created_at : Datetime
  pub updated_at : Datetime
  pub deleted_at : Option Datetime

-- A conjunct of `where(…)`.
pub data Condition : Type 0 where
  id_is : UserId → Condition
  username_is : String → Condition
  not_deleted : Condition

-- An entry of `values(…)` of an update.
pub data Assignment : Type 0 where
  set_column : String × Value → Assignment
  set_deleted_at : Datetime → Assignment

-- `values(…)` of an insert.
pub record UserValues : Type 0 where
  pub email : String
  pub username : String
  pub password_hash : Option String
  pub is_superuser : Bool
  pub permissions : List String

-- What the storage runs on its `AsyncSession`.
pub record UserSession (X : Type 0) : Type 0 where
  -- `select(UserTable).where(…)`
  pub select : List Condition → Action X (List UserRow)
  -- `select(UserTable).where(…).limit(…).offset(…)`, in an order that the database chooses
  pub select_page : List Condition → (limit offset : ℕ) → Action X (List UserRow)
  -- `select(exists().where(…))`, as a scalar
  pub exists : List Condition → Action X (Option Bool)
  -- `select(func.count()).select_from(UserTable).where(…)`, as a scalar
  pub count : List Condition → Action X (Option ℕ)
  -- `insert(UserTable).values(…).returning(UserTable)`, its one row
  pub insert : UserValues → Action X UserRow
  -- `update(UserTable).where(…).values(…)`, the rows of `returning(…)`
  pub update : List Condition → List Assignment → Action X (List UserRow)

-- `_row_to_user`
unfoldable pub row_to_user : UserRow → Result User
unfolding parse_permissions
row_to_user row = bind_result (parse_permissions row.permissions) λ permissions. ok (record {
  id = row.id;
  username = row.username;
  email = row.email;
  is_superuser = row.is_superuser;
  permissions = frozenset permissions;
  created_at = row.created_at;
  updated_at = row.updated_at;
})

-- The `UserCredentials` of a row that has a password.
unfoldable pub row_to_credentials : UserRow → String → Result UserCredentials
unfolding parse_permissions
row_to_credentials row password_hash =
    bind_result (parse_permissions row.permissions) λ permissions. ok (record {
      id = row.id;
      username = row.username;
      password_hash = password_hash;
      is_superuser = row.is_superuser;
      permissions = frozenset permissions;
    })

-- The end of `fetch_user_credentials_by_username`, on the row that was found.
unfoldable pub credentials_of_found : Option UserRow → Result (Option UserCredentials)
unfolding row_to_credentials
credentials_of_found none = ok none
credentials_of_found (some row) = elim row.password_hash [
  | none ↦ ok none
  | some password_hash ↦
      bind_result (row_to_credentials row password_hash) λ credentials. ok (some credentials)
]

abbrev user_of_found : Option UserRow → Result (Option User)
user_of_found none = ok none
user_of_found (some row) = bind_result (row_to_user row) λ user. ok (some user)

-- `[_row_to_user(row) for row in rows]`
unfoldable pub rows_to_users : List UserRow → Result (List User)
unfolding row_to_user
rows_to_users [] = ok []
rows_to_users (row ∷ rows) =
    bind_result (row_to_user row)
      λ user. bind_result (rows_to_users rows) λ users. ok (user ∷ users)

-- The values that are inserted for a user.
abbrev pub values_of : CreateUser → UserValues
values_of user = record {
  email = user.email;
  username = user.username;
  password_hash = user.password_hash;
  is_superuser = user.is_superuser;
  permissions = permission_values user.permissions;
}

-- `_raise_error`, on the name of the constraint.
unfoldable pub raise_error : Option String → Exception
raise_error none = library_error "Unknown error"
raise_error (some constraint) =
    if str_eq constraint "uq__users__username" || str_eq constraint "uq__users__email"
    then entity_already_exists "User already exists"
    else library_error "Unknown error"

-- `except IntegrityError as e: self._raise_error(e)`
abbrev pub convert : {A : Type 0} → Result A → Result A
convert (raise (integrity_error constraint)) = raise (raise_error constraint)
convert (raise e) = raise e
convert (ok a) = ok a

abbrev pub catch_integrity : {X A : Type 0} → Action X A → Action X A
catch_integrity action x = let (r, x') = action x in (convert r, x')

-- `.one()` of an update, with `except NoResultFound`.
abbrev pub one_or_not_found : {X : Type 0} → UserId → List UserRow → Action X UserRow
one_or_not_found id [] = throw (entity_not_found "User" id)
one_or_not_found id (row ∷ []) = pure row
one_or_not_found id (_ ∷ _ ∷ _) = throw (other_error "MultipleResultsFound")

abbrev or_zero : Option ℕ → ℕ
or_zero none = 0
or_zero (some n) = n

abbrev truth_of : Option Bool → Bool
truth_of none = false
truth_of (some b) = b

-- `UserStorage`: its session, and the clock of `datetime.now(tz=UTC)`.
module _ {X : Type 0} (session : UserSession X) (now : ℕ) where
  unfoldable pub fetch_user_by_id : UserId → Action X (Option User)
  unfolding row_to_user
  fetch_user_by_id user_id = do
    rows ← session.select (id_is user_id ∷ not_deleted ∷ [])
    lift (user_of_found (head? rows))

  unfoldable pub fetch_user_credentials_by_username : String → Action X (Option UserCredentials)
  unfolding credentials_of_found
  fetch_user_credentials_by_username username = do
    rows ← session.select (username_is username ∷ not_deleted ∷ [])
    lift (credentials_of_found (head? rows))

  unfoldable pub exists_user_by_id : UserId → Action X Bool
  exists_user_by_id user_id = do
    found ← session.exists (id_is user_id ∷ not_deleted ∷ [])
    pure (truth_of found)

  unfoldable pub count_users : UserPaginationParams → Action X ℕ
  count_users params = do result ← session.count (not_deleted ∷ []); pure (or_zero result)

  unfoldable pub fetch_user_list : UserPaginationParams → Action X (List User)
  unfolding rows_to_users
  fetch_user_list params = do
    rows ← session.select_page (not_deleted ∷ []) params.limit params.offset
    lift (rows_to_users rows)

  unfoldable pub create_user : CreateUser → Action X User
  unfolding raise_error row_to_user
  create_user user = do
    row ← catch_integrity (session.insert (values_of user))
    lift (row_to_user row)

  unfoldable pub delete_user_by_id : UserId → Action X (Unit {0})
  delete_user_by_id user_id =
      session.update (id_is user_id ∷ []) (set_deleted_at now ∷ []) >> pure tt

  -- An `IntegrityError` of the update is not caught.
  unfoldable pub update_user_by_id : UpdateUser → Action X User
  unfolding user_to_dict row_to_user
  update_user_by_id update_user = do
    rows ← session.update (id_is update_user.id ∷ []) (map set_column (user_to_dict update_user))
    row ← one_or_not_found update_user.id rows
    lift (row_to_user row)

  abbrev pub user_storage : IUserStorage X
  user_storage = record {
    fetch_user_by_id = fetch_user_by_id;
    fetch_user_credentials_by_username = fetch_user_credentials_by_username;
    count_users = count_users;
    fetch_user_list = fetch_user_list;
    create_user = create_user;
    delete_user_by_id = delete_user_by_id;
    update_user_by_id = update_user_by_id;
    exists_user_by_id = exists_user_by_id;
  }
