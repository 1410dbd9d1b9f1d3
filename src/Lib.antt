-- ===== src/Lib.antt =====
-- A verification library for the book and user service under library/: a REST and message service
-- over PostgreSQL that keeps books and users, uploads books from Open Library, and logs users in
-- with JSON web tokens.
--
-- A request runs from an endpoint (Presentors) through a use case, which opens a unit of work, and
-- a service (Domains) to a storage (Adapters), which runs its statements on the session of that
-- unit of work. What is raised on the way is turned into a response by the handlers of Presentors.
-- An async function is an `Action`: it takes the state and gives a result, returned or raised,
-- with the state at that point.
--
-- Which file models which part:
--
-- - Prelude and its children: names of the library, tests on numbers and texts, lemmas on lists.
-- - Application.Exceptions and Application.Result: library/application/exceptions.py, and calls
--   that return or raise.
-- - Application.Reduced: `AsyncReducer` of library/application/reduced.py, one function for each
--   method and a step for each event of the loop; its invariant is in Reduced/Invariant and
--   Reduced/Steps, what callers can rely on in Reduced/Sharing. Application.Cached:
--   library/application/cached.py. Application.Keys: the keys that both decorators make.
--   Application.Config: library/config.py and the files that it puts together.
-- - Domains.Entities: library/domains/entities, a record for each dataclass, `Given` for a field
--   that may be UNSET.
-- - Domains.Uow: library/domains/uow.py, with `with_uow` for `async with`. Domains.Storages:
--   library/domains/interfaces/storages. Domains.Services: library/domains/services.
--   Domains.UseCases: library/domains/use_cases, `create_book_command` for
--   `CreateBookCommand.execute` and so on.
-- - Domains.UseCases.Auth: library/domains/use_cases/commands/auth. Domains.UseCases.Upload:
--   library/domains/use_cases/commands/book/upload_books.py.
-- - Adapters.Database.Uow: library/adapters/database/uow.py. Adapters.Database.Tables:
--   library/adapters/database/tables.py and base.py. Adapters.Database.Migrations:
--   library/adapters/database/migrations/versions. Adapters.Database.Books:
--   library/adapters/database/storages/book.py, on the table of
--   library/adapters/database/tables.py. Adapters.Database.Users:
--   library/adapters/database/storages/user.py. Adapters.OpenLibrary:
--   library/adapters/open_library/client.py; Adapters.OpenLibrary.Clients: cached.py and
--   reduced.py beside it. Adapters.Health: library/adapters/healthcheck. Adapters.Nats:
--   library/adapters/nats/middlewares/log.py.
-- - Presentors.Auth: library/presentors/rest/routers/auth; its Routes lists every route of the
--   program. Presentors.Rest.Handlers:
--   library/presentors/rest/routers/api/v1/exception_handlers.py with the table of
--   library/presentors/rest/service.py. Presentors.Rest.Params, Books, Users and OpenLibrary:
--   library/presentors/rest/routers/api/v1/endpoints and schemas. Presentors.Rest.Health:
--   library/presentors/rest/routers/health. Presentors.Rest.RequestId:
--   library/presentors/rest/middleware/request_id.py. Presentors.Rest.Requests: whole requests on
--   books, from the endpoint to the committed rows. Presentors.Faststream:
--   library/presentors/faststream/handlers and events. Presentors.Wiring: the providers of
--   library/domains/di.py and of the files di.py under library/adapters, and the two containers.
--
-- What stands outside the repository is a parameter with named laws: sqlalchemy's sessions
-- (`SessionApi`, `IsTransactional`), PostgreSQL on the tables (`BookSession`, `IsBookDatabase`,
-- `UserSession`, `IsUserDatabase`), aiocache (`BaseCache`, `IsStore`), passlib (`CryptContext`),
-- litestar's tokens (`Jwt`), its matching of paths (`IsRouting`) and its choice of handlers
-- (`Litestar`), the answers of Open Library (`Answers`), the operations of alembic (`Operations`,
-- `IsSchema`), the base class of faststream's middlewares (`BaseMiddleware`, `IsBase`), `int`,
-- `float` and the case of letters (`Conversions`), and the order in which the event loop runs
-- things (`Event`). The files named Tests, with Memory, Lifted, InMemory and Fixtures beside them,
-- fill them with concrete functions. Exceptions of libraries that the program tells apart have
-- constructors of their own; litestar's other HTTP exceptions are one (`http_error`), with their
-- status and detail.
--
-- Two loops take fuel. That over the pages of a query says `none` when the fuel runs out; it needs
-- one round more than the full pages, and a theorem below says so. That over the buckets of an
-- upload takes the number of books, which is always enough. Numbers are natural where the code has
-- checked them, integers (`ℤ`) where it has not; a year must fit 32 bits and a text 255 characters
-- where the database asks for it.
--
-- The layers meet in two places. A storage over the session of a unit of work does on it what it
-- does on the session itself (`RunsInside`), so that what a service does inside `async with uow`
-- is what it promises of the rows (Adapters.Database.Books.Contract), or nothing.
-- Presentors.Rest.Requests and Presentors.Faststream put this together, each for its way in. For
-- users, Adapters.Database.Users.Credentials does so for registration and login, and
-- Presentors.Rest.Users.Conflicts for the endpoints that meet a name that is taken.
--
-- Not modelled: the arguments with which the program sets up its libraries (litestar, faststream,
-- sqlalchemy's engine, structlog, sentry, the middlewares for metrics and rates), the environment
-- of alembic and the commands that start the programs; the checks of PostgreSQL and Redis; how
-- Python prints the arguments of a call, which goes into the keys of the cache and the reducer;
-- keys from a `key_func`, which the program never gives; the exit of the resources that the
-- providers open.
pub mod Prelude
pub mod Application
pub mod Domains
pub mod Presentors
pub mod Adapters
