-- ===== src/Presentors/Auth/Tokens/Laws.antt =====
-- The token pair of library/presentors/rest/routers/auth/controller.py: what each of its tokens
-- can be used for, and that refreshing neither loses nor gains rights.
use example_litestar_service.Prelude.{
  ℕ, ◌+◌, ◌≤◌, ◌<◌, ◌≡◌, refl, sym, String, List, [], ◌∷◌, some, eq_iff, text_len, arith, inl, inr,
  Bool-cases, Option-cases, false,
}
use example_litestar_service.Domains.Entities.Permission.{
  AuthUser, elements, frozenset-elements, parse_permissions-map,
}
use example_litestar_service.Application.Exceptions.{not_authorized}
use example_litestar_service.Application.Result.{ok, raise, ok-injective, Result-cases}
use example_litestar_service.Presentors.Auth.Tokens.{
  Token, Claim, null, text, flag, texts, Jwt, AuthConfig, TokenPairSchema, extras_of, get_or,
  differs, user_of_token, retrieve_user, create_token_pair, refresh_decoded, refresh,
  refresh_repeatedly, authenticate,
}

-- The claims that the program writes describe the user that they were written for.
pub user_of_token-extras_of :
    (user : AuthUser) (token_type : String)
    → user_of_token (record { sub = user.id; extras = extras_of user token_type }) ≡ ok user
unfolding user_of_token
user_of_token-extras_of user token_type =
    rw (parse_permissions-map (elements user.permissions), frozenset-elements user.permissions)

differs-false : (value : Claim) (word : String) → differs value word ≡ false → value ≡ text word
unfolding differs
differs-false null word h = cc
differs-false (text s) word h = ground (arith, eq_iff s word)
differs-false (flag b) word h = cc
differs-false (texts l) word h = cc

abbrev pub last : ℕ → List ℕ → ℕ
last now [] = now
last now (later ∷ instants) = last later instants

module _ {Encoded : Type 0} (jwt : Jwt Encoded) (auth_config : AuthConfig) (secret : String) where
  -- Until it expires, the refresh token of a pair that was issued to a user can be exchanged for
  -- a pair that is issued to the same user, with the same rights; afterwards it is refused.
  pub refresh-create_token_pair :
      (now later : ℕ) (user : AuthUser)
      → 0 < text_len user.id
      → (later < now + auth_config.refresh_token_ttl_seconds
          → refresh jwt auth_config secret later
              (create_token_pair jwt auth_config secret now user).refresh_token
            ≡ ok (create_token_pair jwt auth_config secret later user))
        × (now + auth_config.refresh_token_ttl_seconds ≤ later
            → refresh jwt auth_config secret later
                (create_token_pair jwt auth_config secret now user).refresh_token
              ≡ raise (not_authorized "Invalid refresh token"))
  unfolding refresh
  refresh-create_token_pair now later user named = (
    λ fresh.
        rw
          (
            jwt.decode-create_token secret now user.id (extras_of user "refresh")
                auth_config.refresh_token_ttl_seconds later named fresh,
            refresh_decoded,
            user_of_token-extras_of user "refresh",
          )
          refl,
    λ expired.
        rw
          (
            jwt.decode-create_token_expired secret now user.id (extras_of user "refresh")
                auth_config.refresh_token_ttl_seconds later expired,
            refresh_decoded,
          )
          refl,
  )

  -- Until it expires, the access token of a pair authenticates the user that the pair was issued
  -- to, with the same rights, and cannot be exchanged for a new pair.
  pub access_token_use :
      (now later : ℕ) (user : AuthUser)
      → 0 < text_len user.id
      → later < now + auth_config.access_token_ttl_seconds
      → (authenticate jwt secret later
            (create_token_pair jwt auth_config secret now user).access_token
          ≡ ok user)
        × (refresh jwt auth_config secret later
              (create_token_pair jwt auth_config secret now user).access_token
            ≡ raise (not_authorized "Token is not a refresh token"))
  unfolding refresh authenticate retrieve_user create_token_pair
  access_token_use now later user named fresh =
      let read =
        jwt.decode-create_token secret now user.id (extras_of user "access")
          auth_config.access_token_ttl_seconds later named fresh in
      (rw (read, authenticate) (user_of_token-extras_of user "access"), rw read refl)

  -- The refresh token of a pair never authenticates a user.
  pub refresh_token_is_no_access_token :
      (now later : ℕ) (user : AuthUser)
      → 0 < text_len user.id
      → later < now + auth_config.refresh_token_ttl_seconds
      → authenticate jwt secret later
          (create_token_pair jwt auth_config secret now user).refresh_token
        ≡ raise (not_authorized "Access token required")
  unfolding authenticate retrieve_user create_token_pair
  refresh_token_is_no_access_token now later user named fresh =
      rw
        (
          jwt.decode-create_token secret now user.id (extras_of user "refresh")
              auth_config.refresh_token_ttl_seconds later named fresh,
          authenticate,
        )
        refl

  -- Each instant comes before the token that was issued at the one before it expires.
  abbrev pub InTime : ℕ → List ℕ → Type 0
  InTime now [] = Unit
  InTime now (later ∷ instants) =
      (later < now + auth_config.refresh_token_ttl_seconds) × InTime later instants

  -- A client that keeps refreshing in time, however often, always holds a pair for the user who
  -- logged in, with the rights of that login.
  pub refresh_repeatedly-same_user :
      (now : ℕ) (instants : List ℕ) (user : AuthUser)
      → 0 < text_len user.id
      → InTime now instants
      → refresh_repeatedly jwt auth_config secret instants
          (create_token_pair jwt auth_config secret now user)
        ≡ ok (create_token_pair jwt auth_config secret (last now instants) user)
  unfolding refresh_repeatedly
  refresh_repeatedly-same_user now [] user named h = refl
  refresh_repeatedly-same_user now (later ∷ instants) user named (fresh, h) =
      rw ((refresh-create_token_pair now later user named).0 fresh)
        (refresh_repeatedly-same_user later instants user named h)

  -- Whatever token is presented, a pair is issued only for a token that the library accepts and
  -- that says it is a refresh token, and it is issued to the user of that token's claims.
  pub refresh_sound :
      (now : ℕ) (presented : Encoded) (pair : TokenPairSchema Encoded)
      → refresh jwt auth_config secret now presented ≡ ok pair
      → (token : Token) × (user : AuthUser) × (jwt.decode secret now presented ≡ some token)
        × (get_or "token_type" null token.extras ≡ text "refresh")
        × (user_of_token token ≡ ok user)
        × (pair ≡ create_token_pair jwt auth_config secret now user)
  unfolding refresh
  refresh_sound now presented pair e = elim (Option-cases (jwt.decode secret now presented)) [
    | inl refused ↦ absurd (cc (rw (refused, refresh_decoded) at e))
    | inr (token, accepted) ↦
        let e' = rw (accepted, refresh_decoded) at e in
        elim (Bool-cases (differs (get_or "token_type" null token.extras) "refresh")) [
          | inl wrong ↦ absurd (cc (rw wrong at e'))
          | inr right ↦ elim (Result-cases (user_of_token token)) [
            | inl (user, described) ↦ (
              token,
              user,
              accepted,
              differs-false _ "refresh" right,
              described,
              ok-injective (sym (rw (right, described) at e')),
            )
            | inr (error, undescribed) ↦ absurd (cc (rw (right, undescribed) at e'))
          ]
        ]
  ]
