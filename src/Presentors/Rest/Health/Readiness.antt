-- ===== src/Presentors/Rest/Health/Readiness.antt =====
-- When library/presentors/rest/routers/health/controller.py says that the service is ready.
use example_litestar_service.Prelude.{
  ℕ, ◌<◌, ◌≡◌, ◌↔◌, refl, ◌∙◌, List, [], ◌∷◌, all, All, true, arith, length, length-map,
}
use example_litestar_service.Adapters.Health.{
  CheckResult, HealthCheck, Outcome, returns, raises, run, safe_check, settle,
}
use example_litestar_service.Presentors.Rest.Health.{readiness, check_result_schema}

-- A check that returns a healthy result before the timeout.
abbrev pub Passes : ℕ → HealthCheck → Type 0
Passes timeout check =
    (check.duration < timeout)
    × ((result : CheckResult) × (check.outcome ≡ returns result) × (result.healthy ≡ true))

settle-healthy :
    (check : HealthCheck) (outcome : Outcome)
    → (settle check outcome).healthy ≡ true
    → (result : CheckResult) × (outcome ≡ returns result) × (result.healthy ≡ true)
settle-healthy check (returns result) h = (result, refl, h)
settle-healthy check (raises class_name) h = absurd (ground arith)

safe_check_iff :
    (timeout : ℕ) (check : HealthCheck)
    → ((safe_check timeout check).healthy ≡ true) ↔ Passes timeout check
unfolding safe_check
safe_check_iff timeout check = (
  λ h. (ground arith, settle-healthy check check.outcome (ground arith)),
  λ passes.
      let (in_time, (result, returned, healthy)) = passes in
      let settled : (settle check check.outcome).healthy ≡ true = rw returned healthy in
      ground arith,
)

all-run_iff :
    (timeout : ℕ) (checks : List HealthCheck)
    → (all (λ (r : CheckResult). r.healthy) (run timeout checks) ≡ true)
      ↔ All (Passes timeout) checks
unfolding run
all-run_iff timeout [] = (λ h. tt, λ h. refl)
all-run_iff timeout (check ∷ checks) =
    let (to, from) = safe_check_iff timeout check in
    let (to_all, from_all) = all-run_iff timeout checks in
    (
      λ h. (to (ground arith), to_all (ground arith)),
      λ h. let first = from (h.0) in let rest = from_all (h.1) in ground arith,
    )

-- The readiness endpoint answers 200 exactly when every check returns a healthy result before the
-- timeout, whatever the others do, and it always lists one result for each check.
pub readiness_iff :
    (timeout : ℕ) (checks : List HealthCheck)
    → (((readiness timeout checks).status_code ≡ 200) ↔ All (Passes timeout) checks)
      × (length (readiness timeout checks).content.checks ≡ length checks)
unfolding readiness
readiness_iff timeout checks =
    let (to, from) = all-run_iff timeout checks in
    (
      (λ h. to (ground arith), λ h. let ok = from h in ground arith),
      length-map check_result_schema (run timeout checks) ∙ length-map (safe_check timeout) checks,
    )
