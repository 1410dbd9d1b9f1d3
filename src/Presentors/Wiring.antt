-- ===== src/Presentors/Wiring.antt =====
-- The providers of dishka (library/domains/di.py and the files di.py under library/adapters), and the
-- two containers that library/presentors/rest/service.py and
-- library/presentors/faststream/app_factory.py make of them.
pub mod Resolving
mod Tests
use example_litestar_service.Prelude.{
  str_eq, ℕ, zero, suc, String, Bool, true, false, ◌&&◌, ◌||◌, Option, none, some, List, [], ◌∷◌,
  ◌++◌, map, any, all, select, head?, length, if◌then◌else◌,
}

pub data Scope : Type 0 where
  app request : Scope

-- A factory with the names of the types that it gives and that its parameters ask for.
pub record Factory : Type 0 where
  pub scope : Scope
  pub provides : List String
  pub requires : List String

abbrev factory : Scope → String → List String → Factory
factory scope name requires = record { scope = scope; provides = name ∷ []; requires = requires }

-- `DomainProvider`
abbrev uow_and : String → String → Factory
uow_and service name = factory request name ("AbstractUow" ∷ service ∷ [])

abbrev uow_storage_and_crypt : String → Factory
uow_storage_and_crypt name =
    factory request name ("AbstractUow" ∷ "IUserStorage" ∷ "CryptContext" ∷ [])

unfoldable pub domain_provider : List Factory
domain_provider =
    factory request "BookService" ("IBookStorage" ∷ [])
    ∷ uow_and "BookService" "FetchBookByIdQuery"
    ∷ uow_and "BookService" "FetchBookListQuery"
    ∷ uow_and "BookService" "CreateBookCommand"
    ∷ uow_and "BookService" "DeleteBookByIdCommand"
    ∷ uow_and "BookService" "UpdateBookByIdCommand"
    ∷ factory request "UserService" ("IUserStorage" ∷ [])
    ∷ uow_and "UserService" "FetchUserByIdQuery"
    ∷ uow_and "UserService" "FetchUserListQuery"
    ∷ uow_and "UserService" "CreateUserCommand"
    ∷ uow_and "UserService" "DeleteUserByIdCommand"
    ∷ uow_and "UserService" "UpdateUserByIdCommand"
    ∷ uow_storage_and_crypt "RegisterUserCommand"
    ∷ uow_storage_and_crypt "LoginUserCommand"
    ∷ factory request "UploadBooksCommand"
        ("AbstractUow" ∷ "BookService" ∷ "IOpenLibraryClient" ∷ [])
    ∷ factory request "OpenLibrarySearchQuery" ("IOpenLibraryClient" ∷ [])
    ∷ []

-- `DatabaseProvider`; its factory of the unit of work gives both types.
unfoldable pub database_provider : List Factory
database_provider =
    factory app "AsyncEngine" ("DatabaseConfig" ∷ "AppConfig" ∷ [])
    ∷ factory app "async_sessionmaker" ("AsyncEngine" ∷ [])
    ∷ record {
      scope = request;
      provides = "SqlalchemyUow" ∷ "AbstractUow" ∷ [];
      requires = "async_sessionmaker" ∷ [];
    }
    ∷ factory request "IBookStorage" ("SqlalchemyUow" ∷ [])
    ∷ factory request "IUserStorage" ("SqlalchemyUow" ∷ [])
    ∷ []

-- `OpenLibraryProvider`
unfoldable pub open_library_provider : List Factory
open_library_provider =
    factory app "ClientSession" []
    ∷ factory app "OpenLibraryClient" ("OpenLibraryConfig" ∷ "ClientSession" ∷ [])
    ∷ factory app "ReducedOpenLibraryClient" ("OpenLibraryClient" ∷ [])
    ∷ factory app "IOpenLibraryClient" ("ReducedOpenLibraryClient" ∷ "BaseCache" ∷ [])
    ∷ []

-- `RedisProvider`
unfoldable pub redis_provider : List Factory
redis_provider = factory app "BaseCache" ("RedisConfig" ∷ []) ∷ []

-- `HealthCheckProvider`
unfoldable pub health_check_provider : List Factory
health_check_provider =
    factory app "PostgresHealthCheck" ("AsyncEngine" ∷ [])
    ∷ factory app "RedisHealthCheck" ("BaseCache" ∷ [])
    ∷ factory app "NatsHealthCheck" ("NatsBroker" ∷ [])
    ∷ factory app "ReadinessRunner"
        ("PostgresHealthCheck" ∷ "RedisHealthCheck" ∷ "NatsHealthCheck" ∷ [])
    ∷ []

pub record Container : Type 0 where
  pub factories : List Factory
  pub context : List String

-- The containers of `get_litestar_app` and of `get_faststream_app`.
unfoldable pub litestar_container : Container
unfolding domain_provider database_provider open_library_provider redis_provider
    health_check_provider
litestar_container = record {
  factories =
      database_provider ++ domain_provider ++ open_library_provider ++ redis_provider
      ++ health_check_provider;
  context =
      "AppConfig" ∷ "AuthConfig" ∷ "DatabaseConfig" ∷ "OpenLibraryConfig" ∷ "RedisConfig"
      ∷ "NatsBroker" ∷ "CryptContext" ∷ [];
}

unfoldable pub faststream_container : Container
unfolding domain_provider database_provider open_library_provider redis_provider
faststream_container = record {
  factories = database_provider ++ domain_provider ++ open_library_provider ++ redis_provider;
  context =
      "RedisConfig" ∷ "OpenLibraryConfig" ∷ "DatabaseConfig" ∷ "AppConfig" ∷ "CryptContext" ∷ [];
}

-- What the methods of the controllers ask for with `FromDishka`, and the handler of the messages.
abbrev books_injected : List String
books_injected =
    "FetchBookListQuery" ∷ "CreateBookCommand" ∷ "FetchBookByIdQuery" ∷ "UpdateBookByIdCommand"
    ∷ "DeleteBookByIdCommand" ∷ []

abbrev users_injected : List String
users_injected =
    "FetchUserListQuery" ∷ "CreateUserCommand" ∷ "FetchUserByIdQuery" ∷ "UpdateUserByIdCommand"
    ∷ "DeleteUserByIdCommand" ∷ []

abbrev auth_injected : List String
auth_injected = "RegisterUserCommand" ∷ "LoginUserCommand" ∷ "AuthConfig" ∷ []

abbrev open_library_injected : List String
open_library_injected = "OpenLibrarySearchQuery" ∷ []

abbrev health_injected : List String
health_injected = "ReadinessRunner" ∷ []

-- Those of all `route_handlers` of the application.
abbrev pub litestar_injected : List String
litestar_injected =
    health_injected ++ auth_injected ++ books_injected ++ users_injected ++ open_library_injected

abbrev pub faststream_injected : List String
faststream_injected = "UploadBooksCommand" ∷ []
