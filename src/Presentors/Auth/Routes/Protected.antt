-- ===== src/Presentors/Auth/Routes/Protected.antt =====
-- Which routes of library/presentors/rest/service.py are behind the middleware of `make_jwt_auth`.
use Prim.Native.String
use text.Mathlib.TextLemmas.{append-nil}
use example_litestar_service.Prelude.{
  ℕ, ◌≡◌, refl, ◌↔◌, inl, inr, String, str_eq, Bool, true, false, ◌||◌, Option, none, some, List,
  [], ◌∷◌, ◌++◌, any, All, All-append, arith,
}
use example_litestar_service.Domains.Entities.Permission.{AuthUser}
use example_litestar_service.Application.Result.{ok}
use example_litestar_service.Presentors.Auth.Tokens.{Jwt}
use example_litestar_service.Presentors.Auth.Routes.{
  Route, under, books_controller, open_library_controller, users_controller, health_controller,
  auth_controller, v1_router, api_router, route_handlers, exclude, bearer_user, receive,
}
use example_litestar_service.Presentors.Auth.Routes.Matching.{
  contains, asks_user, accepted_iff, IsRouting,
}

module _ {Encoded : Type 0} (jwt : Jwt Encoded) (secret : String) (now : ℕ)
    (bypasses : List String → String → Bool) (Takes : List String → String → Type 0)
    (routing : IsRouting Takes bypasses) (no_user : String) where
  -- A request for the route gets as far as its handler: always and without a user if nothing asks for
  -- one, and else exactly with a token that names a user whom all guards let pass.
  abbrev pub Admits : Route → Type 0
  Admits route =
      (path : String) (bearer : Option Encoded)
      → Takes route.path path
      → (asks_user route ≡ false
          → receive jwt secret now bypasses no_user route path bearer ≡ ok none)
        × (asks_user route ≡ true
            → (found : Option AuthUser)
            → (receive jwt secret now bypasses no_user route path bearer ≡ ok found) ↔ (
                (user : AuthUser) × (found ≡ some user)
                × (bearer_user jwt secret now bearer ≡ ok user)
                × All (λ guard. guard user ≡ ok tt) route.guards))

  Admits-bypassed :
      (route : Route)
      → asks_user route ≡ false
      → ((path : String) → Takes route.path path → bypasses exclude path ≡ true)
      → Admits route
  unfolding receive
  Admits-bypassed route quiet skipped path bearer taken =
      (λ _. ground (arith, skipped path taken, quiet), λ asks. absurd (ground (arith, asks, quiet)))

  Admits-checked :
      (route : Route)
      → asks_user route ≡ true
      → ((path : String) → Takes route.path path → bypasses exclude path ≡ false)
      → Admits route
  unfolding receive
  Admits-checked route asks kept path bearer taken = (
    λ quiet. absurd (ground (arith, asks, quiet)),
    λ _ found.
        rw (kept path taken) (accepted_iff route.guards (bearer_user jwt secret now bearer) found),
  )

  under_excluded :
      (p : String) (parts : List String) (path : String)
      → contains p "{" ≡ false
      → any (str_eq p) exclude ≡ true
      → Takes (p ∷ parts) path
      → bypasses exclude path ≡ true
  under_excluded p parts path plain listed taken =
      let (rest, same) = routing.takes_from p parts path plain taken in
      rw same (routing.bypasses_under p rest listed)

  -- All routes of a router with an excluded path, of which none asks for the user.
  Admits-under :
      (p : String) (routes : List Route)
      → contains p "{" ≡ false
      → any (str_eq p) exclude ≡ true
      → All (λ route. asks_user route ≡ false) routes
      → All Admits (under p routes)
  unfolding under
  Admits-under p [] plain listed quiet = tt
  Admits-under p (route ∷ routes) plain listed quiet = (
    Admits-bypassed _ (quiet.0) (λ path taken. under_excluded p route.path path plain listed taken),
    Admits-under p routes plain listed (quiet.1),
  )

  -- A handler without parameters, whose whole path is excluded.
  plain_excluded :
      (a b path : String)
      → contains a "{" || contains b "{" ≡ false
      → str_eq b "/" ≡ false
      → any (str_eq (String.◌++◌ a b)) exclude ≡ true
      → Takes (a ∷ b ∷ []) path
      → bypasses exclude path ≡ true
  plain_excluded a b path plain named listed taken =
      elim (routing.takes_plain a b path plain named taken) [
        | inl same ↦
            rw (same, ← append-nil (String.◌++◌ a b))
              (routing.bypasses_under (String.◌++◌ a b) "" listed)
        | inr same ↦ rw same (routing.bypasses_under (String.◌++◌ a b) "/" listed)
      ]

  plain_kept :
      (a b path : String)
      → contains a "{" || contains b "{" ≡ false
      → str_eq b "/" ≡ false
      → any (contains (String.◌++◌ a b)) exclude ≡ false
      → any (contains (String.◌++◌ (String.◌++◌ a b) "/")) exclude ≡ false
      → Takes (a ∷ b ∷ []) path
      → bypasses exclude path ≡ false
  plain_kept a b path plain named apart apart' taken =
      elim (routing.takes_plain a b path plain named taken) [
        | inl same ↦ rw same (routing.bypasses_only (String.◌++◌ a b) apart)
        | inr same ↦ rw same (routing.bypasses_only (String.◌++◌ (String.◌++◌ a b) "/") apart')
      ]

  -- For every route of the program: a request for it gets to its handler, without a user, if
  -- neither its guards nor the handler ask for one, and otherwise exactly when its bearer token
  -- names a user whom all guards of the route let pass. The patterns that `make_jwt_auth` excludes
  -- leave no route unprotected that needs the user, and protect no other.
  pub route_handlers_lem : All Admits route_handlers
  unfolding route_handlers health_controller auth_controller api_router v1_router books_controller
      open_library_controller users_controller under exclude
  route_handlers_lem =
      All-append Admits health_controller (auth_controller ++ api_router)
        (
          Admits-bypassed _ refl (λ path. under_excluded "/health" ("/live" ∷ []) path refl refl),
          (
            Admits-bypassed _ refl
                (λ path. under_excluded "/health" ("/ready" ∷ []) path refl refl),
            tt,
          ),
        )
        (All-append Admits auth_controller api_router
          (
            Admits-bypassed _ refl (λ path. plain_excluded "/auth" "/register" path refl refl refl),
            (
              Admits-bypassed _ refl (λ path. plain_excluded "/auth" "/login" path refl refl refl),
              (
                Admits-bypassed _ refl
                    (λ path. plain_excluded "/auth" "/refresh" path refl refl refl),
                (
                  Admits-checked _ refl (λ path. plain_kept "/auth" "/me" path refl refl refl refl),
                  (
                    Admits-checked _ refl
                        (λ path. plain_kept "/auth" "/admin-zone" path refl refl refl refl),
                    tt,
                  ),
                ),
              ),
            ),
          )
          (Admits-under "/api" v1_router refl refl quiet))
    where
      quiet : All (λ route. asks_user route ≡ false) v1_router
      quiet =
          (refl, (refl, (refl, (refl, (refl, (refl, (refl, (refl, (refl, (refl, (refl, tt)))))))))))
