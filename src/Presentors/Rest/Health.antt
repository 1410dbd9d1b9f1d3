-- ===== src/Presentors/Rest/Health.antt =====
-- library/presentors/rest/routers/health/controller.py and schemas.py.
pub mod Readiness
use example_litestar_service.Prelude.{ℕ, String, Bool, List, map, all, if◌then◌else◌}
use example_litestar_service.Adapters.Health.{CheckResult, HealthCheck, run}

pub record LivenessSchema : Type 0 where
  pub status : String

pub record CheckResultSchema : Type 0 where
  pub name : String
  pub healthy : Bool
  pub detail : String

pub record ReadinessSchema : Type 0 where
  pub status : String
  pub checks : List CheckResultSchema

-- The `Response` of the readiness endpoint.
pub record ReadinessResponse : Type 0 where
  pub content : ReadinessSchema
  pub status_code : ℕ

abbrev pub check_result_schema : CheckResult → CheckResultSchema
check_result_schema r = record { name = r.name; healthy = r.healthy; detail = r.detail }

-- `HealthController.liveness`
abbrev pub liveness : LivenessSchema
liveness = record { status = "ok" }

-- `HealthController.readiness`
unfoldable pub readiness : (timeout : ℕ) → List HealthCheck → ReadinessResponse
unfolding run
readiness timeout checks =
    let results = run timeout checks in
    let all_ok = all (λ (r : CheckResult). r.healthy) results in
    record {
      content = record {
        status = if all_ok then "ok" else "fail";
        checks = map check_result_schema results;
      };
      status_code = if all_ok then 200 else 503;
    }
