-- ===== src/Presentors/Rest/Tests.antt =====
-- Error responses, windows and checks of library/presentors/rest, for one litestar.
use example_litestar_service.Prelude.{
  ◌≡◌, ◌≤◌, ◌↔◌, refl, pos, some, none, [], ◌∷◌, All, length, true,
}
use example_litestar_service.Application.Exceptions.{mro}
use example_litestar_service.Application.Result.{ok}
use example_litestar_service.Presentors.Rest.Handlers.{
  Litestar, first_registered, exception_json_response, json, internal_server_error,
}
use example_litestar_service.Presentors.Rest.Params.{check_window}
use example_litestar_service.Presentors.Rest.Params.Windows.{check_window_iff}
use example_litestar_service.Adapters.Health.{HealthCheck, returns, raises}
use example_litestar_service.Presentors.Rest.Health.{readiness}
use example_litestar_service.Presentors.Rest.Health.Readiness.{Passes, readiness_iff}
use example_litestar_service.Adapters.Database.Uow.InMemory
use example_litestar_service.Adapters.Database.Users.Memory.{
  Rows, lifted, lifted-KeepsDurable, lifted-IsUserDatabase, former,
}
use example_litestar_service.Presentors.Rest.Users.Conflicts.{
  post_user, patch_username, Refused, user_conflict_responses,
}

abbrev litestar : Litestar
litestar = record {
  find_handler = λ table e. first_registered table (mro e);
  find_handler_lem = λ table e. refl;
}

check_window_iff_example :
    (check_window "Validation failed" (some (pos 20)) none ≡ ok (20, 0))
    ↔ ((pos 20 ≡ pos 20) × (pos 0 ≡ pos 0) × (1 ≤ 20) × (20 ≤ 100))
check_window_iff_example = check_window_iff "Validation failed" (some (pos 20)) none 20 0

abbrev postgres : HealthCheck
postgres = record {
  name = "postgres";
  duration = 15;
  outcome = returns (record { name = "postgres"; healthy = true; detail = "ok" });
}

abbrev nats : HealthCheck
nats = record { name = "nats"; duration = 1; outcome = raises "RuntimeError" }

readiness_iff_example :
    (((readiness 2000 (postgres ∷ nats ∷ [])).status_code ≡ 200)
      ↔ All (Passes 2000) (postgres ∷ nats ∷ []))
    × (length (readiness 2000 (postgres ∷ nats ∷ [])).content.checks ≡ 2)
readiness_iff_example = readiness_iff 2000 (postgres ∷ nats ∷ [])

-- A deleted user, who keeps the name "jane", and one who is there.
abbrev users : Rows
users = former ∷ record former { id = "u1"; username = "tom"; deleted_at = none } ∷ []

user_conflict_responses_example :
    Refused
      (InMemory.world_api Rows)
      lifted
      9
      (InMemory.durable Rows)
      (InMemory.view Rows)
      (InMemory.world_api-IsTransactional Rows)
      lifted-KeepsDurable
      lifted-IsUserDatabase
      litestar
      some
      "Validation failed"
      (λ s v. (tt, refl))
      (λ s v. refl)
      (post_user
        (InMemory.world_api Rows)
        lifted
        9
        (InMemory.durable Rows)
        (InMemory.view Rows)
        (InMemory.world_api-IsTransactional Rows)
        lifted-KeepsDurable
        lifted-IsUserDatabase
        litestar
        some
        "Validation failed"
        (λ s v. (tt, refl))
        (λ s v. refl)
        "jane"
        "jane@example.com")
      (users, [])
      (json (exception_json_response 409 "User already exists"))
    × Refused
        (InMemory.world_api Rows)
        lifted
        9
        (InMemory.durable Rows)
        (InMemory.view Rows)
        (InMemory.world_api-IsTransactional Rows)
        lifted-KeepsDurable
        lifted-IsUserDatabase
        litestar
        some
        "Validation failed"
        (λ s v. (tt, refl))
        (λ s v. refl)
        (patch_username
          (InMemory.world_api Rows)
          lifted
          9
          (InMemory.durable Rows)
          (InMemory.view Rows)
          (InMemory.world_api-IsTransactional Rows)
          lifted-KeepsDurable
          lifted-IsUserDatabase
          litestar
          some
          "Validation failed"
          (λ s v. (tt, refl))
          (λ s v. refl)
          "u1"
          "jane")
        (users, [])
        internal_server_error
user_conflict_responses_example =
    user_conflict_responses (InMemory.world_api Rows) lifted 9 (InMemory.durable Rows)
      (InMemory.view Rows) (InMemory.world_api-IsTransactional Rows) lifted-KeepsDurable
      lifted-IsUserDatabase litestar some "Validation failed" (λ s v. (tt, refl)) (λ s v. refl) "u1"
      "jane" "jane@example.com" "jane@example.com" (users, []) refl refl refl refl
