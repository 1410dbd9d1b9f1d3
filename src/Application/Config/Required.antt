-- ===== src/Application/Config/Required.antt =====
-- Which variables of the environment the configuration of library/config.py needs, and what it is
-- without any others.
use example_litestar_service.Prelude.{
  str_eq, ◌≡◌, ◌≢◌, refl, ap, ◌∙◌, String, ℤ, pos, true, false, Option, none, some, List, [], ◌∷◌,
  arith, inl, inr, if◌then◌else◌, Option-cases, eq_iff,
}
use example_litestar_service.Application.Exceptions.{other_error}
use example_litestar_service.Application.Result.{
  Result, ok, raise, bind_result, Action, ok-injective,
}
use example_litestar_service.Application.Config.{Environ, Conversions, get_item, int_item}
use example_litestar_service.Application.Config.Settings.{
  DatabaseConfig, NatsConfig, RedisConfig, SentryConfig, debug, auth_config, database_config,
  http_config, logging_config, nats_config, redis_config, sentry_config,
}
use example_litestar_service.Application.Config.Loading.{Config, config, setup_sentry}

get_item-ok :
    (environ : Environ) (name s : String) → get_item environ name ≡ ok s → environ name ≡ some s
get_item-ok environ name s e = elim (Option-cases (environ name)) [
  | inl missing ↦ absurd (ground (arith, missing, e))
  | inr (t, there) ↦ ground (arith, there, e)
]

-- Seven calls that all returned, and what was made of their results.
all_returned :
    {A B C D E F G Z : Type 0} (a : Result A) (b : Result B) (c : Result C) (d : Result D)
    (e : Result E) (f : Result F) (g : Result G) (k : A → B → C → D → E → F → G → Z) (z : Z)
    → (bind_result a λ a'. bind_result b λ b'. bind_result c λ c'. bind_result d λ d'.
        bind_result e λ e'. bind_result f λ f'. bind_result g λ g'. ok (k a' b' c' d' e' f' g'))
      ≡ ok z
    → (a' : A) × (b' : B) × (c' : C) × (d' : D) × (e' : E) × (f' : F) × (g' : G) × (b ≡ ok b')
      × (e ≡ ok e')
      × (f ≡ ok f')
      × (k a' b' c' d' e' f' g' ≡ z)
all_returned (raise _) b c d e f g k z h = absurd (ground (arith, h))
all_returned (ok a) (raise _) c d e f g k z h = absurd (ground (arith, h))
all_returned (ok a) (ok b) (raise _) d e f g k z h = absurd (ground (arith, h))
all_returned (ok a) (ok b) (ok c) (raise _) e f g k z h = absurd (ground (arith, h))
all_returned (ok a) (ok b) (ok c) (ok d) (raise _) f g k z h = absurd (ground (arith, h))
all_returned (ok a) (ok b) (ok c) (ok d) (ok e) (raise _) g k z h = absurd (ground (arith, h))
all_returned (ok a) (ok b) (ok c) (ok d) (ok e) (ok f) (raise _) k z h = absurd (ground (arith, h))
all_returned (ok a) (ok b) (ok c) (ok d) (ok e) (ok f) (ok g) k z h =
    (a, b, c, d, e, f, g, refl, refl, refl, ok-injective h)

module _ {Float : Type 0} (conversions : Conversions Float) (environ : Environ) where
  -- The variable is set to the text of this number.
  abbrev pub HasInt : String → ℤ → Type 0
  HasInt name n = (s : String) × (environ name ≡ some s) × (conversions.parse_int s ≡ some n)

  int_item-ok : (name : String) (n : ℤ) → int_item conversions environ name ≡ ok n → HasInt name n
  int_item-ok name n e = elim (Option-cases (environ name)) [
    | inl missing ↦ absurd (ground (arith, missing, e))
    | inr (s, there) ↦ elim (Option-cases (conversions.parse_int s)) [
      | inl bad ↦ absurd (ground (arith, there, bad, e))
      | inr (m, good) ↦ (s, there, ground (arith, there, good, e))
    ]
  ]

  database_config-ok :
      (c : DatabaseConfig)
      → database_config conversions environ ≡ ok c
      → (get_item environ "APP_DATABASE_HOST" ≡ ok c.host)
        × (int_item conversions environ "APP_DATABASE_PORT" ≡ ok c.port)
        × (get_item environ "APP_DATABASE_USER" ≡ ok c.user)
        × (get_item environ "APP_DATABASE_PASSWORD" ≡ ok c.password)
        × (get_item environ "APP_DATABASE_NAME" ≡ ok c.name)
  unfolding database_config
  database_config-ok c e = ground (arith, e)

  nats_config-ok :
      (c : NatsConfig)
      → nats_config conversions environ ≡ ok c
      → (get_item environ "APP_NATS_HOST" ≡ ok c.host)
        × (int_item conversions environ "APP_NATS_PORT" ≡ ok c.port)
  unfolding nats_config
  nats_config-ok c e = ground (arith, e)

  redis_config-ok :
      (c : RedisConfig)
      → redis_config conversions environ ≡ ok c
      → (get_item environ "APP_REDIS_HOST" ≡ ok c.host)
        × (int_item conversions environ "APP_REDIS_PORT" ≡ ok c.port)
  unfolding redis_config
  redis_config-ok c e = ground (arith, e)

  config-parts :
      (c : Config Float)
      → config conversions environ ≡ ok c
      → (database_config conversions environ ≡ ok c.database)
        × (nats_config conversions environ ≡ ok c.nats)
        × (redis_config conversions environ ≡ ok c.redis)
  unfolding config
  config-parts c e =
      let (_, database, _, _, nats, redis, _, d, n, r, same) =
        all_returned (auth_config conversions environ) (database_config conversions environ)
          (http_config conversions environ) (logging_config conversions environ)
          (nats_config conversions environ) (redis_config conversions environ)
          (sentry_config conversions environ) _ c e in
      (
        d ∙ ap (λ (x : Config Float). ok x.database) same,
        n ∙ ap (λ (x : Config Float). ok x.nats) same,
        r ∙ ap (λ (x : Config Float). ok x.redis) same,
      )

  -- The configuration loads only where the environment has the nine variables of the database,
  -- the broker and Redis, the ports as texts of numbers, and it takes these values from them.
  pub config_required :
      (c : Config Float)
      → config conversions environ ≡ ok c
      → (environ "APP_DATABASE_HOST" ≡ some c.database.host)
        × HasInt "APP_DATABASE_PORT" c.database.port
        × (environ "APP_DATABASE_USER" ≡ some c.database.user)
        × (environ "APP_DATABASE_PASSWORD" ≡ some c.database.password)
        × (environ "APP_DATABASE_NAME" ≡ some c.database.name)
        × (environ "APP_NATS_HOST" ≡ some c.nats.host)
        × HasInt "APP_NATS_PORT" c.nats.port
        × (environ "APP_REDIS_HOST" ≡ some c.redis.host)
        × HasInt "APP_REDIS_PORT" c.redis.port
  config_required c e =
      let (database, nats, redis) = config-parts c e in
      let (host, port, user, password, name) = database_config-ok c.database database in
      let (nats_host, nats_port) = nats_config-ok c.nats nats in
      let (redis_host, redis_port) = redis_config-ok c.redis redis in
      (
        get_item-ok environ "APP_DATABASE_HOST" c.database.host host,
        int_item-ok "APP_DATABASE_PORT" c.database.port port,
        get_item-ok environ "APP_DATABASE_USER" c.database.user user,
        get_item-ok environ "APP_DATABASE_PASSWORD" c.database.password password,
        get_item-ok environ "APP_DATABASE_NAME" c.database.name name,
        get_item-ok environ "APP_NATS_HOST" c.nats.host nats_host,
        int_item-ok "APP_NATS_PORT" c.nats.port nats_port,
        get_item-ok environ "APP_REDIS_HOST" c.redis.host redis_host,
        int_item-ok "APP_REDIS_PORT" c.redis.port redis_port,
      )

-- An environment of these variables only.
abbrev pub environ_of : List (String × String) → Environ
environ_of [] name = none
environ_of ((key, value) ∷ variables) name =
    if str_eq key name then some value else environ_of variables name

-- What the defaults rely on of `int`, `float`, `str.lower` and `str.upper`.
pub record ReadsDefaults {Float : Type 0} (conversions : Conversions Float) (zero : Float)
    : Type 0 where
  pub parse_900 : conversions.parse_int "900" ≡ some (pos 900)
  pub parse_604800 : conversions.parse_int "604800" ≡ some (pos 604800)
  pub parse_zero : conversions.parse_float "0.0" ≡ some zero
  pub lower_false : conversions.lower "False" ≡ "false"
  pub lower_true : conversions.lower "true" ≡ "true"
  pub upper_debug : conversions.upper "DEBUG" ≡ "DEBUG"
  pub upper_dev : conversions.upper "DEV" ≡ "DEV"

-- With these nine variables and no other, the configuration loads: with their values, without debug
-- mode and without sentry, with logs in JSON from level DEBUG, tokens that last 15 minutes and a
-- week, and the default secret.
pub config_defaults :
    {Float : Type 0} (conversions : Conversions Float) (zero : Float)
    (reads : ReadsDefaults conversions zero)
    (host port user password name nats_host nats_port redis_host redis_port : String) (p n r : ℤ)
    → conversions.parse_int port ≡ some p
    → conversions.parse_int nats_port ≡ some n
    → conversions.parse_int redis_port ≡ some r
    → let environ = environ_of (
        ("APP_DATABASE_HOST", host)
        ∷ ("APP_DATABASE_PORT", port)
        ∷ ("APP_DATABASE_USER", user)
        ∷ ("APP_DATABASE_PASSWORD", password)
        ∷ ("APP_DATABASE_NAME", name)
        ∷ ("APP_NATS_HOST", nats_host)
        ∷ ("APP_NATS_PORT", nats_port)
        ∷ ("APP_REDIS_HOST", redis_host)
        ∷ ("APP_REDIS_PORT", redis_port)
        ∷ []) in
      (c : Config Float) × (config conversions environ ≡ ok c)
      × (c.database.host ≡ host)
      × (c.database.port ≡ p)
      × (c.nats.port ≡ n)
      × (c.redis.port ≡ r)
      × (c.app.debug ≡ false)
      × (c.sentry.use_sentry ≡ false)
      × (c.log.use_json ≡ true)
      × (c.log.log_level ≡ debug)
      × (c.auth.access_token_ttl_seconds ≡ pos 900)
      × (c.auth.refresh_token_ttl_seconds ≡ pos 604800)
      × (c.secret.secret ≡ "secret")
unfolding config database_config nats_config redis_config
config_defaults conversions zero reads host port user password name nats_host nats_port redis_host
      redis_port p n r db nats redis =
    rw
      (
        reads.parse_900, reads.parse_604800, reads.parse_zero, reads.lower_false, reads.lower_true,
        reads.upper_debug, reads.upper_dev, db, nats, redis,
      )
      (_, refl, refl, refl, refl, refl, refl, refl, refl, refl, refl, refl, refl)

-- Sentry is started only with an address to send to: without one, nothing is done but raising.
pub setup_sentry_lem :
    {S Float : Type 0} (init : SentryConfig Float → Option String → Action S (Unit {0}))
    (c : SentryConfig Float) (release : Option String) (s : S)
    → (c.dsn ≡ "" → setup_sentry init c release s ≡ (raise (other_error "ValueError"), s))
      × (c.dsn ≢ "" → setup_sentry init c release s ≡ init c release s)
unfolding setup_sentry
setup_sentry_lem init c release s =
    (λ empty. ground (arith, eq_iff c.dsn ""), λ address. ground (arith, eq_iff c.dsn ""))
