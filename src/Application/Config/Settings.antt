-- ===== src/Application/Config/Settings.antt =====
-- The configurations, and how each takes its fields from the environment, in their order:
-- library/application/config.py, logging.py and sentry.py, and the files config.py under
-- library/adapters.
use example_litestar_service.Prelude.{
  str_eq, String, ℤ, pos, Bool, Option, none, some, if◌then◌else◌,
}
use example_litestar_service.Application.Result.{Result, ok, bind_result}
use example_litestar_service.Application.Config.{
  Environ, Conversions, get_item, get, or_value_error, int_item, int_text, int_or, flag, float_text,
}

pub record AppConfig : Type 0 where
  pub title : String
  pub description : String
  pub version : String
  pub debug : Bool

pub record HttpConfig : Type 0 where
  pub host : String
  pub port : ℤ

pub record SecretConfig : Type 0 where
  pub secret : String

pub record AuthConfig : Type 0 where
  pub access_token_ttl_seconds : ℤ
  pub refresh_token_ttl_seconds : ℤ

pub record DatabaseConfig : Type 0 where
  pub host : String
  pub port : ℤ
  pub user : String
  pub password : String
  pub name : String
  pub pool_size : ℤ
  pub pool_timeout : ℤ
  pub max_overflow : ℤ

pub record NatsConfig : Type 0 where
  pub host : String
  pub port : ℤ
  pub name : String
  pub connect_timeout : ℤ
  pub reconnect_time_wait : ℤ
  pub max_reconnect_attempts : ℤ
  pub allow_reconnect : Bool

pub record RedisConfig : Type 0 where
  pub host : String
  pub port : ℤ

pub record OpenLibraryConfig : Type 0 where
  pub url : String

pub data LogLevel : Type 0 where
  debug info warning error critical : LogLevel

pub record LoggingConfig : Type 0 where
  pub log_level : LogLevel
  pub use_json : Bool

pub data SentryEnv : Type 0 where
  dev prod : SentryEnv

pub record SentryConfig (Float : Type 0) : Type 0 where
  pub dsn : String
  pub use_sentry : Bool
  pub env : SentryEnv
  pub traces_sample_rate : Float
  pub profiles_sample_rate : Float

-- The values of the enumerations, by which their members are called.
abbrev pub log_level_of : String → Option LogLevel
log_level_of s =
    if str_eq s "DEBUG"
    then some debug
    else if str_eq s "INFO"
    then some info
    else if str_eq s "WARNING"
    then some warning
    else if str_eq s "ERROR"
    then some error
    else if str_eq s "CRITICAL"
    then some critical
    else none

abbrev pub sentry_env_of : String → Option SentryEnv
sentry_env_of s = if str_eq s "DEV" then some dev else if str_eq s "PROD" then some prod else none

module _ {Float : Type 0} (conversions : Conversions Float) (environ : Environ) where
  abbrev pub app_config : AppConfig
  app_config = record {
    title = get environ "APP_TITLE" "Library";
    description = get environ "APP_DESCRIPTION" "Web application for library";
    version = get environ "APP_VERSION" "1.0.0";
    debug = flag conversions environ "APP_DEBUG" "False";
  }

  abbrev pub http_config : Result HttpConfig
  http_config =
      bind_result (int_or conversions environ "APP_HTTP_PORT" (pos 8080))
        λ port. ok (record { host = get environ "APP_HTTP_HOST" "0.0.0.0"; port = port })

  abbrev pub secret_config : SecretConfig
  secret_config = record { secret = get environ "APP_SECRET" "secret" }

  abbrev pub auth_config : Result AuthConfig
  auth_config =
      bind_result (int_text conversions environ "APP_AUTH_ACCESS_TOKEN_TTL_SECONDS" "900") λ access.
        bind_result (int_text conversions environ "APP_AUTH_REFRESH_TOKEN_TTL_SECONDS" "604800")
          λ refresh.
            ok (record { access_token_ttl_seconds = access; refresh_token_ttl_seconds = refresh })

  unfoldable pub database_config : Result DatabaseConfig
  database_config = bind_result (get_item environ "APP_DATABASE_HOST") λ host.
      bind_result (int_item conversions environ "APP_DATABASE_PORT") λ port.
        bind_result (get_item environ "APP_DATABASE_USER") λ user.
          bind_result (get_item environ "APP_DATABASE_PASSWORD") λ password.
            bind_result (get_item environ "APP_DATABASE_NAME") λ name.
              bind_result (int_or conversions environ "APP_DATABASE_POOL_SIZE" (pos 10))
                λ pool_size.
                  bind_result (int_or conversions environ "APP_DATABASE_POOL_TIMEOUT" (pos 10))
                    λ pool_timeout.
                      bind_result (int_or conversions environ "APP_DATABASE_MAX_OVERFLOW" (pos 10))
                        λ max_overflow. ok (record {
                          host = host;
                          port = port;
                          user = user;
                          password = password;
                          name = name;
                          pool_size = pool_size;
                          pool_timeout = pool_timeout;
                          max_overflow = max_overflow;
                        })

  unfoldable pub nats_config : Result NatsConfig
  nats_config = bind_result (get_item environ "APP_NATS_HOST") λ host.
      bind_result (int_item conversions environ "APP_NATS_PORT") λ port.
        bind_result (int_or conversions environ "APP_NATS_CONNECT_TIMEOUT" (pos 5))
          λ connect_timeout.
            bind_result (int_or conversions environ "APP_NATS_RECONNECT_TIME_WAIT" (pos 5))
              λ reconnect_time_wait.
                bind_result (int_or conversions environ "APP_NATS_MAX_RECONNECT_ATTEMPTS" (pos 5))
                  λ max_reconnect_attempts. ok (record {
                    host = host;
                    port = port;
                    name = get environ "APP_NATS_NAME" "exchange_service";
                    connect_timeout = connect_timeout;
                    reconnect_time_wait = reconnect_time_wait;
                    max_reconnect_attempts = max_reconnect_attempts;
                    allow_reconnect = flag conversions environ "APP_NATS_ALLOW_RECONNECT" "true";
                  })

  unfoldable pub redis_config : Result RedisConfig
  redis_config = bind_result (get_item environ "APP_REDIS_HOST") λ host.
      bind_result (int_item conversions environ "APP_REDIS_PORT")
        λ port. ok (record { host = host; port = port })

  abbrev pub open_library_config : OpenLibraryConfig
  open_library_config = record { url = "https://openlibrary.org" }

  abbrev pub logging_config : Result LoggingConfig
  logging_config =
      bind_result
        (or_value_error (log_level_of (conversions.upper (get environ "APP_LOG_LEVEL" "DEBUG"))))
        λ log_level. ok (record {
          log_level = log_level;
          use_json = flag conversions environ "APP_LOG_JSON" "true";
        })

  abbrev pub sentry_config : Result (SentryConfig Float)
  sentry_config =
      bind_result
        (or_value_error (sentry_env_of (conversions.upper (get environ "APP_SENTRY_ENV" "DEV"))))
        λ env.
          bind_result (float_text conversions environ "APP_SENTRY_TRACES_SAMPLE_RATE" "0.0")
            λ traces.
              bind_result (float_text conversions environ "APP_SENTRY_PROFILES_SAMPLE_RATE" "0.0")
                λ profiles. ok (record {
                  dsn = get environ "APP_SENTRY_DSN" "";
                  use_sentry = flag conversions environ "APP_SENTRY_USE" "False";
                  env = env;
                  traces_sample_rate = traces;
                  profiles_sample_rate = profiles;
                })
