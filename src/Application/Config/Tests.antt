-- ===== src/Application/Config/Tests.antt =====
-- The configuration of library/config.py, from a small environment.
use example_litestar_service.Prelude.{
  str_eq, ◌≡◌, refl, ℕ, String, ℤ, pos, Option, none, some, [], ◌∷◌, if◌then◌else◌,
}
use example_litestar_service.Application.Result.{ok}
use example_litestar_service.Application.Config.{Environ, Conversions}
use example_litestar_service.Application.Config.Loading.{Config, config}
use example_litestar_service.Application.Config.Required.{
  HasInt, config_required, environ_of, ReadsDefaults, config_defaults,
}

abbrev int_of : String → Option ℤ
int_of s =
    if str_eq s "5432"
    then some (pos 5432)
    else if str_eq s "900"
    then some (pos 900)
    else if str_eq s "604800"
    then some (pos 604800)
    else none

abbrev lower_of : String → String
lower_of s = if str_eq s "False" then "false" else s

abbrev small : Conversions ℕ
small = record {
  parse_int = int_of;
  parse_float = λ s. if str_eq s "0.0" then some 0 else none;
  lower = lower_of;
  upper = λ s. s;
}

small-ReadsDefaults : ReadsDefaults small 0
small-ReadsDefaults = record {
  parse_900 = refl;
  parse_604800 = refl;
  parse_zero = refl;
  lower_false = refl;
  lower_true = refl;
  upper_debug = refl;
  upper_dev = refl;
}

abbrev variables : Environ
variables = environ_of (
    ("APP_DATABASE_HOST", "db")
    ∷ ("APP_DATABASE_PORT", "5432")
    ∷ ("APP_DATABASE_USER", "u")
    ∷ ("APP_DATABASE_PASSWORD", "p")
    ∷ ("APP_DATABASE_NAME", "library")
    ∷ ("APP_NATS_HOST", "nats")
    ∷ ("APP_NATS_PORT", "5432")
    ∷ ("APP_REDIS_HOST", "redis")
    ∷ ("APP_REDIS_PORT", "5432")
    ∷ [])

abbrev loaded : (c : Config ℕ) × (config small variables ≡ ok c)
loaded =
    let d =
      config_defaults small 0 small-ReadsDefaults "db" "5432" "u" "p" "library" "nats" "5432"
        "redis" "5432" (pos 5432) (pos 5432) (pos 5432) refl refl refl in
    (d.0, d.1)

config_required_example :
    (variables "APP_DATABASE_HOST" ≡ some loaded.0.database.host)
    × HasInt small variables "APP_DATABASE_PORT" loaded.0.database.port
    × (variables "APP_DATABASE_USER" ≡ some loaded.0.database.user)
    × (variables "APP_DATABASE_PASSWORD" ≡ some loaded.0.database.password)
    × (variables "APP_DATABASE_NAME" ≡ some loaded.0.database.name)
    × (variables "APP_NATS_HOST" ≡ some loaded.0.nats.host)
    × HasInt small variables "APP_NATS_PORT" loaded.0.nats.port
    × (variables "APP_REDIS_HOST" ≡ some loaded.0.redis.host)
    × HasInt small variables "APP_REDIS_PORT" loaded.0.redis.port
config_required_example = config_required small variables loaded.0 loaded.1
