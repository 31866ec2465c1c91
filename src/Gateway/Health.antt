-- ===== src/Gateway/Health.antt =====
-- packages/gateway-core/src/model-health.ts: the health of a model after a run of probes.
pub mod Trail
mod Examples
use ucli_server.Base.{
  ℕ, suc, Bool, true, false, ◌||◌, Option, none, some, List, [], ◌∷◌, String, leb, if◌then◌else◌,
}

pub data ProbeOutcome : Type 0 where
  passed : ProbeOutcome
  failed : Bool → String → ProbeOutcome

pub data Health : Type 0 where
  healthy degraded unhealthy : Health

pub record HealthTransition : Type 0 where
  pub health : Health
  pub consecutive_failures : ℕ
  pub last_error_code : Option String

-- `nextModelHealth`. A count of failures is not negative.
unfoldable pub next_model_health : ℕ → ProbeOutcome → HealthTransition
next_model_health current passed = record {
  health = healthy;
  consecutive_failures = 0;
  last_error_code = none;
}
next_model_health current (failed terminal code) = record {
  health = if terminal || leb 3 (suc current) then unhealthy else degraded;
  consecutive_failures = suc current;
  last_error_code = some code;
}

-- The state after a run of probes, the newest first, from a count of failures.
unfoldable pub run_probes : ℕ → ProbeOutcome → List ProbeOutcome → HealthTransition
unfolding next_model_health
run_probes start newest [] = next_model_health start newest
run_probes start newest (o ∷ os) =
    next_model_health (run_probes start o os).consecutive_failures newest
