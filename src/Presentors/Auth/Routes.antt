-- ===== src/Presentors/Auth/Routes.antt =====
-- The routes of the program (its controllers, library/presentors/rest/routers/api/router.py and
-- v1/router.py, and the handlers of library/presentors/rest/service.py), and what a request passes
-- before its handler: the middleware of `make_jwt_auth` and the guards.
pub mod Matching
pub mod Protected
mod Tests
use example_litestar_service.Prelude.{
  ℕ, String, Bool, true, false, Option, none, some, List, [], ◌∷◌, ◌++◌, map, if◌then◌else◌,
}
use example_litestar_service.Domains.Entities.Permission.{AuthUser, manage_books}
use example_litestar_service.Application.Exceptions.{not_authorized, http_error}
use example_litestar_service.Application.Result.{Result, ok, raise, bind_result}
use example_litestar_service.Presentors.Auth.Guards.{permission_guard}
use example_litestar_service.Presentors.Auth.Tokens.{Jwt, authenticate}

pub data Method : Type 0 where
  get post patch delete : Method

-- A handler: the parts of its path from the outermost router on, its guards, and whether its body
-- reads `request.user`.
pub record Route : Type 0 where
  pub method : Method
  pub path : List String
  pub guards : List (AuthUser → Result (Unit {0}))
  pub reads_user : Bool

-- A handler without guards that does not ask who calls.
abbrev handler : Method → List String → Route
handler method path = record { method = method; path = path; guards = []; reads_user = false }

-- `Router(path, route_handlers)`
unfoldable pub under : String → List Route → List Route
under path routes =
    map
      (λ route. record {
        method = route.method;
        path = path ∷ route.path;
        guards = route.guards;
        reads_user = route.reads_user;
      })
      routes

unfoldable pub books_controller : List Route
books_controller =
    handler get ("/books" ∷ "/" ∷ [])
    ∷ handler post ("/books" ∷ "/" ∷ [])
    ∷ handler get ("/books" ∷ "/{book_id:uuid}/" ∷ [])
    ∷ handler patch ("/books" ∷ "/{book_id:uuid}/" ∷ [])
    ∷ handler delete ("/books" ∷ "/{book_id:uuid}/" ∷ [])
    ∷ []

unfoldable pub open_library_controller : List Route
open_library_controller = handler get ("/open-library" ∷ "/search" ∷ []) ∷ []

unfoldable pub users_controller : List Route
users_controller =
    handler get ("/users" ∷ "/" ∷ [])
    ∷ handler post ("/users" ∷ "/" ∷ [])
    ∷ handler get ("/users" ∷ "/{user_id:uuid}/" ∷ [])
    ∷ handler patch ("/users" ∷ "/{user_id:uuid}/" ∷ [])
    ∷ handler delete ("/users" ∷ "/{user_id:uuid}/" ∷ [])
    ∷ []

unfoldable pub health_controller : List Route
health_controller =
    handler get ("/health" ∷ "/live" ∷ []) ∷ handler get ("/health" ∷ "/ready" ∷ []) ∷ []

unfoldable pub auth_controller : List Route
auth_controller =
    handler post ("/auth" ∷ "/register" ∷ [])
    ∷ handler post ("/auth" ∷ "/login" ∷ [])
    ∷ handler post ("/auth" ∷ "/refresh" ∷ [])
    ∷ record { method = get; path = "/auth" ∷ "/me" ∷ []; guards = []; reads_user = true }
    ∷ record {
      method = get;
      path = "/auth" ∷ "/admin-zone" ∷ [];
      guards = permission_guard (manage_books ∷ []) ∷ [];
      reads_user = false;
    }
    ∷ []

unfoldable pub v1_router : List Route
v1_router = under "/v1" (books_controller ++ open_library_controller ++ users_controller)

unfoldable pub api_router : List Route
api_router = under "/api" v1_router

-- `route_handlers`, without the controller of litestar's own metrics.
unfoldable pub route_handlers : List Route
route_handlers = health_controller ++ auth_controller ++ api_router

-- `exclude` of `make_jwt_auth`
unfoldable pub exclude : List String
exclude =
    "/api" ∷ "/health" ∷ "/metrics" ∷ "/docs" ∷ "/schema" ∷ "/auth/login" ∷ "/auth/register"
    ∷ "/auth/refresh" ∷ []

-- The guards of a handler, in order.
unfoldable pub run_guards : List (AuthUser → Result (Unit {0})) → AuthUser → Result (Unit {0})
run_guards [] user = ok tt
run_guards (guard ∷ guards) user = bind_result (guard user) λ _. run_guards guards user

module _ {Encoded : Type 0} (jwt : Jwt Encoded) (secret : String) (now : ℕ) where
  -- The user that the request's bearer token names.
  unfoldable pub bearer_user : Option Encoded → Result AuthUser
  unfolding authenticate
  bearer_user none = raise (not_authorized "Unauthorized")
  bearer_user (some token) = authenticate jwt secret now token

  -- What a handler sees of the user: without the middleware none is there, and asking raises.
  -- `bypasses` is litestar's: whether a middleware with these patterns is skipped on a path. So is
  -- `no_user`, the detail of its `ImproperlyConfiguredException`.
  unfoldable pub receive :
      (bypasses : List String → String → Bool) (no_user : String)
      → Route
      → (path : String) → Option Encoded
      → Result (Option AuthUser)
  unfolding run_guards
  receive bypasses no_user route path bearer =
      if bypasses exclude path
      then elim route.guards [
        | [] ↦ if route.reads_user then raise (http_error 500 no_user) else ok none
        | _ ∷ _ ↦ raise (http_error 500 no_user)
      ]
      else bind_result (bearer_user bearer)
          λ user. bind_result (run_guards route.guards user) λ _. ok (some user)
