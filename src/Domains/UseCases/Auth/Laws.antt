-- ===== src/Domains/UseCases/Auth/Laws.antt =====
-- Who can log in through library/domains/use_cases/commands/auth, and what a refusal tells.
use example_litestar_service.Prelude.{
  ◌≡◌, ◌≢◌, refl, sym, ap, ◌∙◌, Bool, String, true, false, Option, none, some, ◌⊎◌, inl, inr, arith,
}
use example_litestar_service.Domains.Entities.Permission.{AuthUser}
use example_litestar_service.Domains.Entities.User.{UserCredentials, LoginUser}
use example_litestar_service.Domains.Storages.{IUserStorage}
use example_litestar_service.Domains.Uow.{AbstractUow, with_uow}
use example_litestar_service.Application.Exceptions.{Exception, unknown_hash}
use example_litestar_service.Application.Result.{
  Result, ok, raise, >>=-ok, ok-injective, raise-injective, Result-cases,
}
use example_litestar_service.Domains.UseCases.Auth.{
  CryptContext, bad_login, check_credentials, login_user, convert_unknown_hash, accept,
}

-- The user of the credentials, with their rights.
abbrev pub IsUserOf : UserCredentials → AuthUser → Type 0
IsUserOf credentials user =
    (user.id ≡ credentials.id)
    × (user.is_superuser ≡ credentials.is_superuser)
    × (user.permissions ≡ credentials.permissions)

accept_sound :
    (c : UserCredentials) (r : Result Bool) (user : AuthUser)
    → accept c r ≡ ok user
    → (r ≡ ok true) × IsUserOf c user
accept_sound c (ok false) user e = cc
accept_sound c (ok true) user e =
    let same = sym (ok-injective e) in
    (
      refl,
      (
        ap (λ (u : AuthUser). u.id) same,
        ap (λ (u : AuthUser). u.is_superuser) same,
        ap (λ (u : AuthUser). u.permissions) same,
      ),
    )
accept_sound c (raise error) user e = cc

convert_unknown_hash-ok : (r : Result Bool) → convert_unknown_hash r ≡ ok true → r ≡ ok true
convert_unknown_hash-ok (ok valid) e = e
convert_unknown_hash-ok (raise error) e = absurd (ground arith)

-- What a refusal tells: nothing but that the login was bad, unless the library raised something
-- else while it verified the password.
accept-refused :
    (c : UserCredentials) (r : Result Bool) (error : Exception)
    → accept c (convert_unknown_hash r) ≡ raise error
    → ((error ≡ bad_login) × ((r ≡ ok false) ⊎ (r ≡ raise unknown_hash)))
      ⊎ ((r ≡ raise error) × (error ≢ unknown_hash))
accept-refused c (ok false) error e = inl (sym (raise-injective e), inl refl)
accept-refused c (ok true) error e = cc
accept-refused c (raise unknown_hash) error e = inl (sym (raise-injective e), inr refl)
accept-refused c (raise _) error e =
    inr (ap raise (raise-injective e), λ same. absurd (cc (raise-injective e, same)))

check_credentials_sound :
    (crypt : CryptContext) (password : String) (found : Option UserCredentials) (user : AuthUser)
    → check_credentials crypt password found ≡ ok user
    → (c : UserCredentials) × (found ≡ some c)
      × (crypt.verify password c.password_hash ≡ ok true)
      × IsUserOf c user
unfolding check_credentials
check_credentials_sound crypt password none user e = cc
check_credentials_sound crypt password (some c) user e =
    let (valid, same) = accept_sound c _ user e in (c, refl, convert_unknown_hash-ok _ valid, same)

-- Why a login is refused: with the one exception where there are no credentials, the password is
-- wrong or the hash cannot be read, and else with what the library raised.
abbrev pub Refusal :
    CryptContext → (password : String) → Option UserCredentials → Exception → Type 0
Refusal crypt password found error =
    ((error ≡ bad_login)
      × ((found ≡ none)
          ⊎ ((c : UserCredentials) × (found ≡ some c)
              × ((crypt.verify password c.password_hash ≡ ok false)
                  ⊎ (crypt.verify password c.password_hash ≡ raise unknown_hash)))))
    ⊎ ((c : UserCredentials) × (found ≡ some c)
        × (crypt.verify password c.password_hash ≡ raise error)
        × (error ≢ unknown_hash))

check_credentials-refused :
    (crypt : CryptContext) (password : String) (found : Option UserCredentials) (error : Exception)
    → check_credentials crypt password found ≡ raise error
    → Refusal crypt password found error
unfolding check_credentials
check_credentials-refused crypt password none error e = inl (sym (raise-injective e), inl refl)
check_credentials-refused crypt password (some c) error e = elim (accept-refused c _ error e) [
  | inl (bad, reason) ↦ inl (bad, inr (c, refl, reason))
  | inr (failed, known) ↦ inr (c, refl, failed, known)
]

module _ {S : Type 0} (uow : AbstractUow S) (storage : IUserStorage S) (crypt : CryptContext)
    (input_dto : LoginUser) (s : S) where
  abbrev pub fetched : Result (Option UserCredentials) × S
  fetched = with_uow uow (storage.fetch_user_credentials_by_username input_dto.username) s

  pub login_user-checked :
      (found : Option UserCredentials)
      → fetched.0 ≡ ok found
      → (login_user uow storage crypt input_dto s).0
        ≡ check_credentials crypt input_dto.password found
  unfolding login_user
  login_user-checked found read =
      >>=-ok (with_uow uow (storage.fetch_user_credentials_by_username input_dto.username)) _ s
        found read

  -- A login succeeds only if its unit of work found credentials under the username whose hash the
  -- password verifies; it yields their identifier and their rights, and nothing more.
  pub login_user_sound :
      (user : AuthUser)
      → (login_user uow storage crypt input_dto s).0 ≡ ok user
      → (credentials : UserCredentials) × (fetched.0 ≡ ok (some credentials))
        × (crypt.verify input_dto.password credentials.password_hash ≡ ok true)
        × IsUserOf credentials user
  unfolding login_user
  login_user_sound user e = elim (Result-cases fetched.0) [
    | inl (found, read) ↦
        let (c, there, verified, same) =
          check_credentials_sound crypt input_dto.password found user
            (sym (login_user-checked found read) ∙ e) in
        (c, read ∙ ap ok there, verified, same)
    | inr (error, failed) ↦ absurd (ground (arith, failed))
  ]

  -- If its unit of work returns, a login that raises does so for one of two reasons. It raises the
  -- one exception for bad logins where no credentials were found under the username, the password
  -- is wrong or the hash cannot be read; or it raises what the library raised as it verified the
  -- password, which is then not that the hash cannot be read.
  pub login_user-refused :
      (found : Option UserCredentials) (error : Exception)
      → fetched.0 ≡ ok found
      → (login_user uow storage crypt input_dto s).0 ≡ raise error
      → Refusal crypt input_dto.password found error
  login_user-refused found error read e =
      check_credentials-refused crypt input_dto.password found error
        (sym (login_user-checked found read) ∙ e)
