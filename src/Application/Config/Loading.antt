-- ===== src/Application/Config/Loading.antt =====
-- `Config` of library/config.py and `setup_sentry` of library/application/sentry.py.
use example_litestar_service.Prelude.{str_eq, String, Option, if◌then◌else◌}
use example_litestar_service.Application.Exceptions.{other_error}
use example_litestar_service.Application.Result.{Result, ok, bind_result, Action, throw}
use example_litestar_service.Application.Config.{Environ, Conversions}
use example_litestar_service.Application.Config.Settings.{
  AppConfig, HttpConfig, SecretConfig, AuthConfig, DatabaseConfig, NatsConfig, RedisConfig,
  OpenLibraryConfig, LoggingConfig, SentryConfig, app_config, auth_config, database_config,
  http_config, logging_config, nats_config, open_library_config, redis_config, secret_config,
  sentry_config,
}

pub record Config (Float : Type 0) : Type 0 where
  pub app : AppConfig
  pub auth : AuthConfig
  pub database : DatabaseConfig
  pub http : HttpConfig
  pub log : LoggingConfig
  pub nats : NatsConfig
  pub open_library : OpenLibraryConfig
  pub redis : RedisConfig
  pub secret : SecretConfig
  pub sentry : SentryConfig Float

-- `Config()`
unfoldable pub config : {Float : Type 0} → Conversions Float → Environ → Result (Config Float)
unfolding database_config nats_config redis_config
config conversions environ = bind_result (auth_config conversions environ) λ auth.
    bind_result (database_config conversions environ) λ database.
      bind_result (http_config conversions environ) λ http.
        bind_result (logging_config conversions environ) λ log.
          bind_result (nats_config conversions environ) λ nats.
            bind_result (redis_config conversions environ) λ redis.
              bind_result (sentry_config conversions environ) λ sentry. ok (record {
                app = app_config conversions environ;
                auth = auth;
                database = database;
                http = http;
                log = log;
                nats = nats;
                open_library = open_library_config conversions environ;
                redis = redis;
                secret = secret_config conversions environ;
                sentry = sentry;
              })

-- `setup_sentry`, over sentry's `init`.
unfoldable pub setup_sentry :
    {S Float : Type 0}
    → (init : SentryConfig Float → Option String → Action S (Unit {0})) → SentryConfig Float
    → Option String
    → Action S (Unit {0})
setup_sentry init config release =
    if str_eq config.dsn "" then throw (other_error "ValueError") else init config release
