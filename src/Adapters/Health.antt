-- ===== src/Adapters/Health.antt =====
-- library/adapters/healthcheck: the checks and their runner. A check takes a time, in
-- milliseconds, and then returns or raises.
use example_litestar_service.Prelude.{
  ℕ, String, Bool, true, false, Option, none, some, List, map, ltb, if◌then◌else◌,
}
use Prim.Native.String

pub record CheckResult : Type 0 where
  pub name : String
  pub healthy : Bool
  pub detail : String

-- What `check` comes to: a result, or an exception by the name of its class.
pub data Outcome : Type 0 where
  returns : CheckResult → Outcome
  raises : (class_name : String) → Outcome

pub record HealthCheck : Type 0 where
  pub name : String
  pub duration : ℕ
  pub outcome : Outcome

-- The connection of a NATS broker that was started, by its `is_connected`, if it has one.
abbrev pub NatsConnection : Type 0
NatsConnection = Option Bool

-- `NatsHealthCheck.check`
unfoldable pub nats_check : Option NatsConnection → Outcome
nats_check none = raises "RuntimeError"
nats_check (some (some false)) = raises "RuntimeError"
nats_check (some (some true)) = returns (record { name = "nats"; healthy = true; detail = "ok" })
nats_check (some none) = returns (record { name = "nats"; healthy = true; detail = "ok" })

-- The result of a check that raised.
abbrev pub failed : HealthCheck → String → CheckResult
failed check class_name = record {
  name = check.name;
  healthy = false;
  detail = String.◌++◌ "error: " class_name;
}

abbrev pub settle : HealthCheck → Outcome → CheckResult
settle check (returns result) = result
settle check (raises class_name) = failed check class_name

-- `ReadinessRunner._safe_check`
unfoldable pub safe_check : (timeout : ℕ) → HealthCheck → CheckResult
safe_check timeout check =
    if ltb check.duration timeout then settle check check.outcome else failed check "TimeoutError"

-- `ReadinessRunner.run`: the checks run side by side, and `gather` keeps their order.
unfoldable pub run : (timeout : ℕ) → List HealthCheck → List CheckResult
unfolding safe_check
run timeout checks = map (safe_check timeout) checks
