-- ===== src/Domains/Entities/User.antt =====
-- library/domains/entities/user.py.
use Prim.Native.Nat.{ℕ}
use example_litestar_service.Prelude.{String, Option, Bool, List, ◌++◌}
use example_litestar_service.Domains.Entities.Permission.{PermissionSet}
use example_litestar_service.Domains.Entities.Book.{Datetime, Given, Value, text, entry}

abbrev pub UserId : Type 0
UserId = String

pub record User : Type 0 where
  pub id : UserId
  pub username : String
  pub email : String
  pub is_superuser : Bool
  pub permissions : PermissionSet
  pub created_at : Datetime
  pub updated_at : Datetime

pub record UserCredentials : Type 0 where
  pub id : UserId
  pub username : String
  pub password_hash : String
  pub is_superuser : Bool
  pub permissions : PermissionSet

-- Checked to be non-negative before they are built.
pub record UserPaginationParams : Type 0 where
  pub limit : ℕ
  pub offset : ℕ

pub record UserPagination : Type 0 where
  pub total : ℕ
  pub items : List User

pub record CreateUser : Type 0 where
  pub username : String
  pub email : String
  pub password_hash : Option String
  pub is_superuser : Bool
  pub permissions : PermissionSet

pub record RegisterUser : Type 0 where
  pub username : String
  pub email : String
  pub password : String

pub record LoginUser : Type 0 where
  pub username : String
  pub password : String

pub record UpdateUser : Type 0 where
  pub id : UserId
  pub username : Given String
  pub email : Given String

-- `UpdateUser.to_dict`
unfoldable pub user_to_dict : UpdateUser → List (String × Value)
user_to_dict u = entry "username" text u.username ++ entry "email" text u.email
