-- ===== src/Presentors/Auth/Tokens.antt =====
-- The tokens of library/presentors/rest/routers/auth/controller.py, and the token lifetimes of
-- library/application/config.py. Signing and checking a token is litestar's: a parameter.
pub mod Laws
use example_litestar_service.Prelude.{
  str_eq, ℕ, ◌+◌, ◌≤◌, ◌<◌, ◌≡◌, String, Bool, true, false, not, List, [], ◌∷◌, Option, none, some,
  text_len, if◌then◌else◌,
}
use example_litestar_service.Domains.Entities.Permission.{
  AuthUser, frozenset, permission_values, parse_permissions,
}
use example_litestar_service.Application.Exceptions.{not_authorized, other_error}
use example_litestar_service.Application.Result.{Result, ok, raise, bind_result}

-- A value among the claims of a token.
pub data Claim : Type 0 where
  null : Claim
  text : String → Claim
  flag : Bool → Claim
  texts : List String → Claim

abbrev pub Extras : Type 0
Extras = List (String × Claim)

-- `extras.get(key, default)`
unfoldable pub get_or : String → Claim → Extras → Claim
get_or key default [] = default
get_or key default ((k, v) ∷ extras) = if str_eq k key then v else get_or key default extras

-- `bool(value)`
unfoldable pub truth : Claim → Bool
truth null = false
truth (text s) = not (str_eq s "")
truth (flag b) = b
truth (texts []) = false
truth (texts (_ ∷ _)) = true

-- `value != word`
unfoldable pub differs : Claim → String → Bool
differs (text s) word = not (str_eq s word)
differs null word = true
differs (flag b) word = true
differs (texts l) word = true

-- `(Permission(p) for p in value or [])`. Walking a text gives its characters, and a single
-- character is no permission's value; a flag cannot be walked.
unfoldable pub walk_permissions : Claim → Result (List String)
walk_permissions null = ok []
walk_permissions (text s) = if str_eq s "" then ok [] else raise (other_error "ValueError")
walk_permissions (flag true) = raise (other_error "TypeError")
walk_permissions (flag false) = ok []
walk_permissions (texts l) = ok l

pub record Token : Type 0 where
  pub sub : String
  pub extras : Extras

-- What the program uses of `litestar.security.jwt`: `JWTAuth.create_token` at an instant, and
-- `Token.decode` at an instant, `none` where it raises. Instants and lifetimes are in seconds. The program never looks
-- into an encoded token: its texts are a type of their own.
pub record Jwt (Encoded : Type 0) : Type 0 where
  pub create_token :
      (secret : String) (now : ℕ) (identifier : String) (token_extras : Extras)
      (token_expiration : ℕ)
      → Encoded
  pub decode : (secret : String) (now : ℕ) (encoded_token : Encoded) → Option Token
  -- A token is read back, with its subject and its extras, until it expires.
  pub decode-create_token :
      (secret : String) (now : ℕ) (identifier : String) (token_extras : Extras)
      (token_expiration later : ℕ)
      → 0 < text_len identifier
      → later < now + token_expiration
      → decode secret later (create_token secret now identifier token_extras token_expiration)
        ≡ some (record { sub = identifier; extras = token_extras })
  -- From then on it is refused.
  pub decode-create_token_expired :
      (secret : String) (now : ℕ) (identifier : String) (token_extras : Extras)
      (token_expiration later : ℕ)
      → now + token_expiration ≤ later
      → decode secret later (create_token secret now identifier token_extras token_expiration)
        ≡ none

pub record AuthConfig : Type 0 where
  pub access_token_ttl_seconds : ℕ
  pub refresh_token_ttl_seconds : ℕ

pub record TokenPairSchema (Encoded : Type 0) : Type 0 where
  pub access_token : Encoded
  pub refresh_token : Encoded

-- The `AuthUser` that a token's claims describe.
unfoldable pub user_of_token : Token → Result AuthUser
unfolding get_or truth walk_permissions parse_permissions
user_of_token token =
    bind_result (walk_permissions (get_or "permissions" null token.extras)) λ values.
      bind_result (parse_permissions values) λ permissions. ok (record {
        id = token.sub;
        is_superuser = truth (get_or "is_superuser" (flag false) token.extras);
        permissions = frozenset permissions;
      })

-- `_retrieve_user`
unfoldable pub retrieve_user : Token → Result AuthUser
unfolding get_or differs
retrieve_user token =
    if differs (get_or "token_type" null token.extras) "access"
    then raise (not_authorized "Access token required")
    else user_of_token token

-- `{**base_extras, "token_type": token_type}`
abbrev pub extras_of : AuthUser → String → Extras
extras_of user token_type =
    ("permissions", texts (permission_values user.permissions))
    ∷ ("is_superuser", flag user.is_superuser)
    ∷ ("token_type", text token_type)
    ∷ []

-- The JWT library, the configured lifetimes and the secret of `make_jwt_auth`.
module _ {Encoded : Type 0} (jwt : Jwt Encoded) (auth_config : AuthConfig) (secret : String) where
  -- `_create_token_pair`
  unfoldable pub create_token_pair : ℕ → AuthUser → TokenPairSchema Encoded
  create_token_pair now auth_user = record {
    access_token =
        jwt.create_token secret now auth_user.id (extras_of auth_user "access")
          auth_config.access_token_ttl_seconds;
    refresh_token =
        jwt.create_token secret now auth_user.id (extras_of auth_user "refresh")
          auth_config.refresh_token_ttl_seconds;
  }

  -- `AuthController.refresh`, after the token has been decoded.
  unfoldable pub refresh_decoded : ℕ → Option Token → Result (TokenPairSchema Encoded)
  unfolding create_token_pair get_or differs
  refresh_decoded now none = raise (not_authorized "Invalid refresh token")
  refresh_decoded now (some token) =
      if differs (get_or "token_type" null token.extras) "refresh"
      then raise (not_authorized "Token is not a refresh token")
      else bind_result (user_of_token token) λ auth_user. ok (create_token_pair now auth_user)

  -- `AuthController.refresh`
  unfoldable pub refresh : ℕ → Encoded → Result (TokenPairSchema Encoded)
  unfolding refresh_decoded
  refresh now refresh_token = refresh_decoded now (jwt.decode secret now refresh_token)

  -- A client that exchanges its refresh token at each of the instants, in order.
  unfoldable pub refresh_repeatedly :
      List ℕ → TokenPairSchema Encoded → Result (TokenPairSchema Encoded)
  refresh_repeatedly [] pair = ok pair
  refresh_repeatedly (now ∷ instants) pair =
      bind_result (refresh now pair.refresh_token) λ next. refresh_repeatedly instants next

-- The middleware of `make_jwt_auth`: litestar decodes the bearer token and calls `_retrieve_user`.
unfoldable pub authenticate :
    {Encoded : Type 0} → Jwt Encoded → (secret : String) → ℕ → Encoded → Result AuthUser
unfolding retrieve_user
authenticate jwt secret now bearer = elim (jwt.decode secret now bearer) [
  | none ↦ raise (not_authorized "Unauthorized")
  | some token ↦ retrieve_user token
]
