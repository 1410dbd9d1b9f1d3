-- ===== src/Adapters/Database/Users/Rows.antt =====
-- Single rows of UserStorage (library/adapters/database/storages/user.py).
use example_litestar_service.Prelude.{
  ◌≡◌, refl, String, Bool, false, none, some, List, [], ◌∷◌, ◌++◌, select, head?, arith, eq_iff,
}
use example_litestar_service.Domains.Entities.Permission.{parse_permissions}
use example_litestar_service.Domains.Entities.User.{User, UserCredentials}
use example_litestar_service.Application.Result.{ok}
use example_litestar_service.Adapters.Database.Users.{
  UserRow, username_is, not_deleted, row_to_user, row_to_credentials, credentials_of_found,
}
use example_litestar_service.Adapters.Database.Users.Engine.{matches, username_taken}

abbrev pub live_username : String → UserRow → Bool
live_username username = matches (username_is username ∷ not_deleted ∷ [])

-- A new row is the only one with its name.
pub head-select_new :
    (row : UserRow) (rows : List UserRow)
    → row.deleted_at ≡ none
    → username_taken row.username rows ≡ false
    → head? (select (live_username row.username) (rows ++ row ∷ [])) ≡ some row
head-select_new row [] live free = ground (arith, eq_iff row.username row.username)
head-select_new row (r ∷ rows) live free = ground (arith, head-select_new row rows live)

-- The user of a row without permissions.
abbrev pub user_of_row : UserRow → User
user_of_row row = record {
  id = row.id;
  username = row.username;
  email = row.email;
  is_superuser = row.is_superuser;
  permissions = λ _. false;
  created_at = row.created_at;
  updated_at = row.updated_at;
}

pub row_to_user_plain :
    (row : UserRow) → row.permissions ≡ [] → row_to_user row ≡ ok (user_of_row row)
unfolding row_to_user parse_permissions
row_to_user_plain row plain = rw plain refl

abbrev pub credentials_of_row : UserRow → String → UserCredentials
credentials_of_row row password_hash = record {
  id = row.id;
  username = row.username;
  password_hash = password_hash;
  is_superuser = row.is_superuser;
  permissions = λ _. false;
}

pub credentials_of_found_plain :
    (row : UserRow) (password_hash : String)
    → row.permissions ≡ []
    → row.password_hash ≡ some password_hash
    → credentials_of_found (some row) ≡ ok (some (credentials_of_row row password_hash))
unfolding credentials_of_found row_to_credentials parse_permissions
credentials_of_found_plain row password_hash plain has = rw (has, plain) refl
