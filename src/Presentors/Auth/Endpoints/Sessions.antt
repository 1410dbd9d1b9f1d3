-- ===== src/Presentors/Auth/Endpoints/Sessions.antt =====
-- What a login through library/presentors/rest/routers/auth/controller.py is good for.
use example_litestar_service.Prelude.{
  ℕ, ap, any, any-sort_by, ◌+◌, ◌<◌, ◌≡◌, refl, sym, ◌∙◌, String, true, some, inl, inr, ◌⊎◌, ◌↔◌,
  [], ◌∷◌, text_len, arith,
}
use example_litestar_service.Domains.Entities.Permission.{
  AuthUser, Permission, manage_books, same_permission, permission_value, elements,
  frozenset-elements,
}
use example_litestar_service.Domains.Entities.User.{UserCredentials, LoginUser}
use example_litestar_service.Domains.Storages.{IUserStorage}
use example_litestar_service.Domains.Uow.{AbstractUow}
use example_litestar_service.Domains.UseCases.Auth.{CryptContext, login_user}
use example_litestar_service.Domains.UseCases.Auth.Laws.{fetched, login_user_sound, IsUserOf}
use example_litestar_service.Application.Result.{ok, Result-cases, ok-injective, >>=-ok}
use example_litestar_service.Presentors.Auth.Guards.{permission_guard}
use example_litestar_service.Presentors.Auth.Guards.Laws.{permission_guard_iff}
use example_litestar_service.Presentors.Auth.Tokens.{
  Jwt, AuthConfig, TokenPairSchema, create_token_pair, authenticate,
}
use example_litestar_service.Presentors.Auth.Tokens.Laws.{access_token_use}
use example_litestar_service.Presentors.Auth.Endpoints.{
  LoginRequestSchema, WhoAmISchema, login, me, request_me, request_admin_zone, admin_zone,
}

-- The identifier and the rights of the credentials, each permission that they have and no other.
abbrev pub Shows : WhoAmISchema → UserCredentials → Type 0
Shows schema credentials =
    (schema.id ≡ credentials.id)
    × (schema.is_superuser ≡ credentials.is_superuser)
    × ((p : Permission) → any (same_permission p) schema.permissions ≡ credentials.permissions p)

Shows-me :
    (credentials : UserCredentials) (user : AuthUser)
    → IsUserOf credentials user
    → Shows (me user) credentials
unfolding me
Shows-me credentials user (same_id, same_superuser, same_permissions) = (
  same_id,
  same_superuser,
  λ p.
      any-sort_by permission_value (same_permission p) (elements user.permissions)
      ∙ ap (λ s. s p) (frozenset-elements user.permissions)
      ∙ ap (λ s. s p) same_permissions,
)

admin_zone_iff :
    (user : AuthUser)
    → (admin_zone user ≡ ok (record { status = "you are in" }))
      ↔ ((user.is_superuser ≡ true) ⊎ (user.permissions manage_books ≡ true))
unfolding admin_zone
admin_zone_iff user = (to, from)
  where
    to :
        admin_zone user ≡ ok (record { status = "you are in" })
        → (user.is_superuser ≡ true) ⊎ (user.permissions manage_books ≡ true)
    to e = elim (Result-cases (permission_guard (manage_books ∷ []) user)) [
      | inl (_, passed) ↦ elim ((permission_guard_iff (manage_books ∷ []) user).0 passed) [
        | inl super ↦ inl super
        | inr held ↦ inr held.0
      ]
      | inr (error, refused) ↦ absurd (cc (rw refused at e))
    ]

    from :
        (user.is_superuser ≡ true) ⊎ (user.permissions manage_books ≡ true)
        → admin_zone user ≡ ok (record { status = "you are in" })
    from (inl super) = rw ((permission_guard_iff (manage_books ∷ []) user).1 (inl super)) refl
    from (inr held) = rw ((permission_guard_iff (manage_books ∷ []) user).1 (inr (held, tt))) refl

module _ {Encoded : Type 0} (jwt : Jwt Encoded) (auth_config : AuthConfig) (secret : String) where
  -- The admin zone opens for a bearer token exactly when the token authenticates a user who is a
  -- superuser or may manage books.
  pub request_admin_zone_iff :
      (now : ℕ) (bearer : Encoded)
      → (request_admin_zone jwt secret now bearer ≡ ok (record { status = "you are in" })) ↔ (
          (user : AuthUser) × (authenticate jwt secret now bearer ≡ ok user)
          × ((user.is_superuser ≡ true) ⊎ (user.permissions manage_books ≡ true)))
  unfolding request_admin_zone
  request_admin_zone_iff now bearer = (to, from)
    where
      to :
          request_admin_zone jwt secret now bearer ≡ ok (record { status = "you are in" })
          → (user : AuthUser) × (authenticate jwt secret now bearer ≡ ok user)
            × ((user.is_superuser ≡ true) ⊎ (user.permissions manage_books ≡ true))
      to e = elim (Result-cases (authenticate jwt secret now bearer)) [
        | inl (user, known) ↦ (user, known, (admin_zone_iff user).0 (rw known at e))
        | inr (error, refused) ↦ absurd (cc (rw refused at e))
      ]

      from :
          ((user : AuthUser) × (authenticate jwt secret now bearer ≡ ok user)
            × ((user.is_superuser ≡ true) ⊎ (user.permissions manage_books ≡ true)))
          → request_admin_zone jwt secret now bearer ≡ ok (record { status = "you are in" })
      from (user, known, right) = rw known ((admin_zone_iff user).1 right)

  module _ {S : Type 0} (uow : AbstractUow S) (storage : IUserStorage S)
      (crypt : CryptContext) where
    -- A login that succeeds found credentials under the username whose hash the password verifies,
    -- and until the access token of its pair expires, a request for `/auth/me` with that token
    -- shows the identifier of those credentials, whether they are a superuser's, and exactly their
    -- permissions, if the identifier is not empty.
    pub login-request_me :
        (now : ℕ) (payload : LoginRequestSchema) (s : S) (pair : TokenPairSchema Encoded)
        → (login uow storage crypt jwt auth_config secret now payload s).0 ≡ ok pair
        → (credentials : UserCredentials) × ((fetched uow storage crypt
              (record { username = payload.username; password = payload.password })
              s).0
            ≡ ok (some credentials))
          × (crypt.verify payload.password credentials.password_hash ≡ ok true)
          × ((later : ℕ)
              → 0 < text_len credentials.id
              → later < now + auth_config.access_token_ttl_seconds
              → (schema : WhoAmISchema) × (request_me jwt secret later pair.access_token
                  ≡ ok schema)
                × Shows schema credentials)
    unfolding login request_me
    login-request_me now payload s pair e =
        let input_dto : LoginUser = record {
          username = payload.username;
          password = payload.password;
        } in
        elim (Result-cases (login_user uow storage crypt input_dto s).0) [
          | inr (error, refused) ↦ absurd (ground (arith, refused))
          | inl (user, entered) ↦
              let issued : create_token_pair jwt auth_config secret now user ≡ pair =
                ok-injective
                  (sym (>>=-ok (login_user uow storage crypt input_dto) _ s user entered) ∙ e) in
              let (credentials, found, verified, same) =
                login_user_sound uow storage crypt input_dto s user entered in
              (
                credentials,
                found,
                verified,
                λ later named fresh. (
                  me user,
                  rw
                      (
                        ← issued,
                        (access_token_use jwt auth_config secret now later user (rw (same.0) named)
                            fresh).0,
                      )
                      refl,
                  Shows-me credentials user same,
                ),
              )
        ]
