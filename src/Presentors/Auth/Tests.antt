-- ===== src/Presentors/Auth/Tests.antt =====
-- Guards and tokens of library/presentors/rest/routers/auth, for one user.
use example_litestar_service.Prelude.{
  ℕ, ◌+◌, ◌≡◌, refl, ◌↔◌, ◌⊎◌, ◌<◌, true, false, some, [], ◌∷◌, All, arith, text_len,
}
use example_litestar_service.Domains.Entities.Permission.{
  AuthUser, manage_books, read_books, same_permission,
}
use example_litestar_service.Application.Exceptions.{not_authorized}
use example_litestar_service.Application.Result.{ok, raise}
use example_litestar_service.Presentors.Auth.Fixtures.{Sealed, sealing}
use example_litestar_service.Presentors.Auth.Guards.{permission_guard}
use example_litestar_service.Presentors.Auth.Guards.Laws.{permission_guard_iff}
use example_litestar_service.Presentors.Auth.Tokens.{
  AuthConfig, TokenPairSchema, create_token_pair, refresh, refresh_repeatedly, authenticate,
}
use example_litestar_service.Presentors.Auth.Tokens.Laws.{
  access_token_use, refresh_repeatedly-same_user,
}
use example_litestar_service.Domains.Entities.User.{UserCredentials, LoginUser}
use example_litestar_service.Domains.Uow.{with_uow, aenter, aexit_returned}
use example_litestar_service.Domains.UseCases.Auth.{login_user, check_credentials}
use example_litestar_service.Domains.UseCases.Auth.Laws.{fetched}
use example_litestar_service.Domains.UseCases.Auth.Fixtures.{plain_text, no_transactions, one_user}
use example_litestar_service.Presentors.Auth.Endpoints.{
  LoginRequestSchema, WhoAmISchema, login, request_me, request_admin_zone,
}
use example_litestar_service.Presentors.Auth.Endpoints.Sessions.{
  Shows, request_admin_zone_iff, login-request_me,
}

abbrev reader : AuthUser
reader = record { id = "u1"; is_superuser = false; permissions = same_permission read_books }

permission_guard_iff_example :
    (permission_guard (read_books ∷ manage_books ∷ []) reader ≡ ok tt) ↔ (
      (reader.is_superuser ≡ true)
      ⊎ All (λ p. reader.permissions p ≡ true) (read_books ∷ manage_books ∷ []))
permission_guard_iff_example = permission_guard_iff (read_books ∷ manage_books ∷ []) reader

abbrev lifetimes : AuthConfig
lifetimes = record { access_token_ttl_seconds = 900; refresh_token_ttl_seconds = 3600 }

abbrev pair_at : ℕ → TokenPairSchema Sealed
pair_at now = create_token_pair sealing lifetimes "secret" now reader

access_token_use_example :
    (authenticate sealing "secret" 1800 (pair_at 1000).access_token ≡ ok reader)
    × (refresh sealing lifetimes "secret" 1800 (pair_at 1000).access_token
        ≡ raise (not_authorized "Token is not a refresh token"))
access_token_use_example =
    access_token_use sealing lifetimes "secret" 1000 1800 reader (ground arith) (ground arith)

refresh_repeatedly-same_user_example :
    refresh_repeatedly sealing lifetimes "secret" (2000 ∷ 5000 ∷ []) (pair_at 1000)
    ≡ ok (pair_at 5000)
refresh_repeatedly-same_user_example =
    refresh_repeatedly-same_user sealing lifetimes "secret" 1000 (2000 ∷ 5000 ∷ []) reader
      (ground arith) (ground arith, (ground arith, tt))

request_admin_zone_iff_example :
    (request_admin_zone sealing "secret" 1800 (pair_at 1000).access_token
      ≡ ok (record { status = "you are in" }))
    ↔ ((user : AuthUser) × (authenticate sealing "secret" 1800 (pair_at 1000).access_token
          ≡ ok user)
        × ((user.is_superuser ≡ true) ⊎ (user.permissions manage_books ≡ true)))
request_admin_zone_iff_example =
    request_admin_zone_iff sealing lifetimes "secret" 1800 (pair_at 1000).access_token

abbrev jane_login : LoginRequestSchema
jane_login = record { username = "jane"; password = "pride" }

abbrev jane_dto : LoginUser
jane_dto = record { username = "jane"; password = "pride" }

abbrev jane_pair : TokenPairSchema Sealed
jane_pair =
    create_token_pair sealing lifetimes "secret" 1000
      (record { id = "u1"; is_superuser = false; permissions = λ _. true })

login-request_me_example :
    (credentials : UserCredentials) × ((fetched no_transactions one_user plain_text jane_dto tt).0
      ≡ ok (some credentials))
    × (plain_text.verify "pride" credentials.password_hash ≡ ok true)
    × ((later : ℕ)
        → 0 < text_len credentials.id
        → later < 1000 + 900
        → (schema : WhoAmISchema) × (request_me sealing "secret" later jane_pair.access_token
            ≡ ok schema)
          × Shows schema credentials)
unfolding login login_user check_credentials with_uow aenter aexit_returned
login-request_me_example =
    login-request_me sealing lifetimes "secret" no_transactions one_user plain_text 1000 jane_login
      tt jane_pair refl
