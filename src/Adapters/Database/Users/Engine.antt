-- ===== src/Adapters/Database/Users/Engine.antt =====
-- What UserStorage (library/adapters/database/storages/user.py) relies on of PostgreSQL, on the
-- table of library/adapters/database/tables.py: documented behaviour, as hypotheses.
use example_litestar_service.Prelude.{
  str_eq, ◌≡◌, ◌≢◌, String, Bool, true, false, ◌&&◌, not, Option, none, some, List, [], ◌∷◌, ◌++◌,
  all, any, select, leb, text_len, All,
}
use example_litestar_service.Domains.Entities.Book.{text}
use example_litestar_service.Domains.Entities.User.{UserId}
use example_litestar_service.Application.Exceptions.{integrity_error}
use example_litestar_service.Application.Result.{ok, raise}
use example_litestar_service.Adapters.Database.Users.{
  UserRow, Condition, id_is, username_is, not_deleted, UserValues, UserSession, set_column,
}

abbrev pub is_live : UserRow → Bool
is_live row = elim row.deleted_at [ none ↦ true | some _ ↦ false ]

abbrev pub holds : UserRow → Condition → Bool
holds row (id_is id) = str_eq row.id id
holds row (username_is username) = str_eq row.username username
holds row not_deleted = is_live row

abbrev pub matches : List Condition → UserRow → Bool
matches conditions row = all (holds row) conditions

abbrev pub values_of_row : UserRow → UserValues
values_of_row row = record {
  email = row.email;
  username = row.username;
  password_hash = row.password_hash;
  is_superuser = row.is_superuser;
  permissions = row.permissions;
}

-- The unique columns count deleted rows too.
abbrev pub username_taken : String → List UserRow → Bool
username_taken username rows = any (λ row. str_eq row.username username) rows

abbrev pub held_by_other : UserId → String → List UserRow → Bool
held_by_other id username rows =
    any (λ row. not (str_eq row.id id) && str_eq row.username username) rows

abbrev pub email_taken : String → List UserRow → Bool
email_taken email rows = any (λ row. str_eq row.email email) rows

abbrev pub fits_text : String → Bool
fits_text s = leb (text_len s) 255

abbrev fits_hash : Option String → Bool
fits_hash none = true
fits_hash (some hash) = fits_text hash

-- Every text fits `String(255)`.
abbrev pub fits : UserValues → Bool
fits values =
    fits_text values.username && (fits_text values.email && fits_hash values.password_hash)

-- `rows` are the rows of the table that the state shows, in the order of a scan.
pub record IsUserDatabase {X : Type 0} (session : UserSession X) (rows : X → List UserRow)
    : Type 0 where
  pub select_lem :
      (conditions : List Condition) (x : X)
      → session.select conditions x ≡ (ok (select (matches conditions) (rows x)), x)
  pub exists_lem :
      (conditions : List Condition) (x : X)
      → session.exists conditions x ≡ (ok (some (any (matches conditions) (rows x))), x)
  -- A user cannot get the name that another row has.
  pub update_taken_username :
      (id : UserId) (username : String) (x : X)
      → fits_text username ≡ true
      → any (matches (id_is id ∷ [])) (rows x) ≡ true
      → held_by_other id username (rows x) ≡ true
      → session.update (id_is id ∷ []) (set_column ("username", text username) ∷ []) x
        ≡ (raise (integrity_error (some "uq__users__username")), x)
  -- A new user becomes a row with a new identifier.
  pub insert_lem :
      (values : UserValues) (x : X)
      → fits values ≡ true
      → username_taken values.username (rows x) ≡ false
      → email_taken values.email (rows x) ≡ false
      → (row : UserRow) × ((session.insert values x).0 ≡ ok row)
        × (values_of_row row ≡ values)
        × (row.deleted_at ≡ none)
        × All (λ r. r.id ≢ row.id) (rows x)
        × (rows (session.insert values x).1 ≡ rows x ++ row ∷ [])
  pub insert_taken_username :
      (values : UserValues) (x : X)
      → fits values ≡ true
      → username_taken values.username (rows x) ≡ true
      → session.insert values x ≡ (raise (integrity_error (some "uq__users__username")), x)
  pub insert_taken_email :
      (values : UserValues) (x : X)
      → fits values ≡ true
      → username_taken values.username (rows x) ≡ false
      → email_taken values.email (rows x) ≡ true
      → session.insert values x ≡ (raise (integrity_error (some "uq__users__email")), x)
