-- ===== src/Adapters/Database/Users/Credentials.antt =====
-- Registration followed by login, over UserStorage (library/adapters/database/storages/user.py).
use example_litestar_service.Prelude.{
  ◌≡◌, refl, ap, sym, ◌∙◌, String, true, false, none, some, List, [], ◌∷◌, ◌++◌, select, head?,
  arith, inl, inr, ◌⊎◌, Bool-cases, ℕ,
}
use example_litestar_service.Domains.Entities.User.{User, CreateUser, LoginUser, RegisterUser}
use example_litestar_service.Domains.Entities.Permission.{AuthUser, permission_values}
use example_litestar_service.Domains.Storages.{IUserStorage}
use example_litestar_service.Adapters.Database.Uow.{SessionApi, State, closed, sqlalchemy_uow}
use example_litestar_service.Adapters.Database.Uow.Atomic.{IsTransactional}
use example_litestar_service.Adapters.Database.Uow.Inside.{
  with_uow_succeeds, with_uow_committed, with_uow_completes,
}
use example_litestar_service.Adapters.Database.Users.Session.{
  session_of_uow, KeepsDurable, create_user-RunsInside, credentials-RunsInside,
}
use example_litestar_service.Domains.UseCases.Auth.{
  CryptContext, login_user, register_user, check_credentials,
}
use example_litestar_service.Domains.UseCases.Auth.Laws.{login_user-checked}
use example_litestar_service.Application.Exceptions.{entity_already_exists}
use example_litestar_service.Application.Result.{Result, ok, raise, ok-injective}
use example_litestar_service.Adapters.Database.Users.{
  UserRow, UserSession, UserValues, username_is, not_deleted, values_of, row_to_user, create_user,
  fetch_user_credentials_by_username, user_storage,
}
use example_litestar_service.Adapters.Database.Users.Engine.{
  IsUserDatabase, values_of_row, username_taken, email_taken, fits,
}
use example_litestar_service.Adapters.Database.Users.Rows.{
  live_username, head-select_new, user_of_row, credentials_of_row, row_to_user_plain,
  credentials_of_found_plain,
}

-- What `RegisterUserCommand` asks the storage to create.
abbrev pub registered : String → RegisterUser → CreateUser
registered password_hash input_dto = record {
  username = input_dto.username;
  email = input_dto.email;
  password_hash = some password_hash;
  is_superuser = false;
  permissions = λ _. false;
}

module _ {X : Type 0} (session : UserSession X) (rows : X → List UserRow) (now : ℕ)
    (db : IsUserDatabase session rows) where
  -- A new user whose name or e-mail address some user already has, deleted users included, is
  -- refused as existing, and the table is left alone.
  pub create_user_taken :
      (user : CreateUser) (x : X)
      → fits (values_of user) ≡ true
      → (username_taken user.username (rows x) ≡ true) ⊎ (email_taken user.email (rows x) ≡ true)
      → create_user session now user x ≡ (raise (entity_already_exists "User already exists"), x)
  unfolding create_user
  create_user_taken user x small taken = elim (Bool-cases (username_taken user.username (rows x))) [
    | inl name ↦ rw (db.insert_taken_username (values_of user) x small name) refl
    | inr free ↦
        let address : email_taken user.email (rows x) ≡ true = ground arith in
        rw (db.insert_taken_email (values_of user) x small free address) refl
  ]

  create_user_returned :
      (user : CreateUser) (x : X) (row : UserRow) (created : User)
      → (session.insert (values_of user) x).0 ≡ ok row
      → row_to_user row ≡ ok created
      → ((create_user session now user x).0 ≡ ok created)
        × ((create_user session now user x).1 ≡ (session.insert (values_of user) x).1)
  unfolding create_user
  create_user_returned user x row created inserted read =
      (ground (arith, inserted, read), ground (arith, inserted, read))

  -- A new user under a free name and a free address becomes a row at the end.
  creates :
      (user : CreateUser) (x : X)
      → permission_values user.permissions ≡ []
      → fits (values_of user) ≡ true
      → username_taken user.username (rows x) ≡ false
      → email_taken user.email (rows x) ≡ false
      → (row : UserRow) × ((create_user session now user x).0 ≡ ok (user_of_row row))
        × (values_of_row row ≡ values_of user)
        × (row.deleted_at ≡ none)
        × (rows (create_user session now user x).1 ≡ rows x ++ row ∷ [])
  creates user x plain small free free_email =
      let (row, inserted, key, live, fresh, after) =
        db.insert_lem (values_of user) x small free free_email in
      let none_held : row.permissions ≡ [] = ap (λ (v : UserValues). v.permissions) key ∙ plain in
      let (created, same_state) =
        create_user_returned user x row (user_of_row row) inserted
          (row_to_user_plain row none_held) in
      (row, created, key, live, ap rows same_state ∙ after)

  reads :
      (row : UserRow) (hash : String) (x : X)
      → head? (select (live_username row.username) (rows x)) ≡ some row
      → row.permissions ≡ []
      → row.password_hash ≡ some hash
      → (fetch_user_credentials_by_username session now row.username x).0
        ≡ ok (some (credentials_of_row row hash))
  unfolding fetch_user_credentials_by_username
  reads row hash x found plain has =
      rw
        (
          db.select_lem (username_is row.username ∷ not_deleted ∷ []) x,
          found,
          credentials_of_found_plain row hash plain has,
        )
        refl

module _ {W Session Transaction : Type 0} (api : SessionApi W Session Transaction)
    (sql : Session → UserSession W) (now : ℕ) (durable : W → List UserRow)
    (view : Session → W → List UserRow) (laws : IsTransactional api durable view)
    (keeps : (s : Session) → KeepsDurable (sql s) durable)
    (db : (s : Session) → IsUserDatabase (sql s) (view s)) (crypt : CryptContext)
    (begins : (s : Session) (v : W) → (t : Transaction) × ((api.begin s v).0 ≡ ok t))
    (commits : (s : Session) (v : W) → (api.commit s v).0 ≡ ok tt) where
  abbrev storage : IUserStorage (State api)
  storage = user_storage (session_of_uow api sql) now

  -- The commands, each on a new unit of work.
  abbrev pub registration : (salt : ℕ) → RegisterUser → W → Result User × W
  registration salt input_dto w =
      let (r, (_, w')) =
        register_user (sqlalchemy_uow api) storage crypt salt input_dto (closed, w) in
      (r, w')

  abbrev pub logging_in : LoginUser → W → Result AuthUser
  logging_in input_dto w = (login_user (sqlalchemy_uow api) storage crypt input_dto (closed, w)).0

  registers :
      (salt : ℕ) (input_dto : RegisterUser) (w : W)
      → let user = registered (crypt.hash salt input_dto.password) input_dto in
        fits (values_of user) ≡ true
        → username_taken input_dto.username (durable w) ≡ false
        → email_taken input_dto.email (durable w) ≡ false
        → let (r, w') = registration salt input_dto w in
          (row : UserRow) × (r ≡ ok (user_of_row row))
          × (values_of_row row ≡ values_of user)
          × (row.deleted_at ≡ none)
          × (durable w' ≡ durable w ++ row ∷ [])
  unfolding register_user
  registers salt input_dto w small free free_email =
      let user = registered (crypt.hash salt input_dto.password) input_dto in
      let run = create_user-RunsInside api durable sql now keeps user in
      let on = λ (s : Session) (v : W) (seen : view s v ≡ durable w).
        creates (sql s) (view s) now (db s) user v refl small (rw seen free) (rw seen free_email) in
      let (created, returned) =
        with_uow_succeeds api durable view laws run w begins commits
          (λ s v seen. (user_of_row (on s v seen).0, (on s v seen).1)) in
      let (s, v, seen, done, kept) =
        with_uow_committed api durable view laws run w created returned in
      let (row, made, key, live, after) = on s v seen in
      let same : created ≡ user_of_row row = ok-injective (sym done ∙ made) in
      (
        row,
        returned ∙ ap ok same,
        key,
        live,
        kept ∙ after ∙ ap (λ (l : List UserRow). l ++ row ∷ []) seen,
      )

  logs_in :
      (salt : ℕ) (password : String) (w : W) (row : UserRow)
      → head? (select (live_username row.username) (durable w)) ≡ some row
      → row.permissions ≡ []
      → row.password_hash ≡ some (crypt.hash salt password)
      → logging_in (record { username = row.username; password = password }) w
        ≡ ok (record { id = row.id; is_superuser = row.is_superuser; permissions = λ _. false })
  unfolding check_credentials
  logs_in salt password w row found plain has =
      let hash = crypt.hash salt password in
      let fetched =
        with_uow_completes api durable view laws
          (credentials-RunsInside api durable sql now keeps row.username) w
          (some (credentials_of_row row hash)) begins commits
          (λ s v seen. reads (sql s) (view s) now (db s) row hash v (rw seen found) plain has) in
      login_user-checked (sqlalchemy_uow api) storage crypt
        (record { username = row.username; password = password }) (closed, w)
        (some (credentials_of_row row hash)) fetched
      ∙ rw (crypt.verify-hash salt password) refl

  -- Who registers under a name and an e-mail address that no committed user has, deleted users
  -- included, with texts and a hash that fit their columns, gets a user, and can then log in with the
  -- password: as that user, who is no superuser and has no permissions. Each of the two is a command
  -- on a new unit of work, and the database begins and commits its transactions.
  pub login_user-register_user :
      (salt : ℕ) (input_dto : RegisterUser) (w : W)
      → let user = registered (crypt.hash salt input_dto.password) input_dto in
        fits (values_of user) ≡ true
        → username_taken input_dto.username (durable w) ≡ false
        → email_taken input_dto.email (durable w) ≡ false
        → let (r, w') = registration salt input_dto w in
          (created : User) × (r ≡ ok created)
          × (created.username ≡ input_dto.username)
          × (logging_in (record { username = input_dto.username; password = input_dto.password }) w'
              ≡ ok (record { id = created.id; is_superuser = false; permissions = λ _. false }))
  login_user-register_user salt input_dto w small free free_email =
      let (row, returned, key, live, after) = registers salt input_dto w small free free_email in
      let w' = (registration salt input_dto w).1 in
      let name : row.username ≡ input_dto.username = ap (λ (v : UserValues). v.username) key in
      let plain_user : row.is_superuser ≡ false = ap (λ (v : UserValues). v.is_superuser) key in
      let free_name : username_taken row.username (durable w) ≡ false = rw name free in
      let found : head? (select (live_username row.username) (durable w')) ≡ some row =
        rw after (head-select_new row (durable w) live free_name) in
      let entered =
        logs_in salt input_dto.password w' row found (ap (λ (v : UserValues). v.permissions) key)
          (ap (λ (v : UserValues). v.password_hash) key) in
      (user_of_row row, returned, name, rw (name, plain_user) at entered)
