-- ===== src/Presentors/Auth/Fixtures.antt =====
-- What the tests of library/presentors/rest/routers/auth put in place of litestar's tokens.
use example_litestar_service.Prelude.{
  ℕ, ◌+◌, ◌≡◌, ◌<◌, ◌≤◌, String, str_eq, eq_refl, Option, none, some, ltb, arith, if◌then◌else◌,
  ◌&&◌,
}
use example_litestar_service.Presentors.Auth.Tokens.{Token, Jwt}

-- A token that carries its secret and the instant at which it expires.
abbrev pub Sealed : Type 0
Sealed = String × (ℕ × Token)

abbrev pub open_sealed : String → ℕ → Sealed → Option Token
open_sealed secret now (key, (expires, token)) =
    if str_eq key secret && ltb now expires then some token else none

pub open_sealed-fresh :
    (secret : String) (now expires : ℕ) (token : Token)
    → now < expires
    → open_sealed secret now (secret, (expires, token)) ≡ some token
open_sealed-fresh secret now expires token fresh = ground (arith, eq_refl secret)

pub open_sealed-expired :
    (secret : String) (now expires : ℕ) (token : Token)
    → expires ≤ now
    → open_sealed secret now (secret, (expires, token)) ≡ none
open_sealed-expired secret now expires token expired = ground arith

abbrev pub sealing : Jwt Sealed
sealing = record {
  create_token = λ secret now identifier extras expiration.
      (secret, (now + expiration, record { sub = identifier; extras = extras }));
  decode = open_sealed;
  decode-create_token = λ secret now identifier extras expiration later named fresh.
      open_sealed-fresh secret later (now + expiration) _ fresh;
  decode-create_token_expired = λ secret now identifier extras expiration later expired.
      open_sealed-expired secret later (now + expiration) _ expired;
}
