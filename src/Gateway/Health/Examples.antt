-- ===== src/Gateway/Health/Examples.antt =====
-- Runs of packages/gateway-core/src/model-health.ts.
use ucli_server.Base.{◌≡◌, false, ◌||◌, not, [], ◌∷◌, List}
use ucli_server.Gateway.Health.{ProbeOutcome, passed, failed, run_probes}
use ucli_server.Gateway.Health.Trail.{
  is_failure, is_healthy, is_terminal, is_unhealthy, three_failures, run_probes-health,
}

abbrev timeout : ProbeOutcome
timeout = failed false "timeout"

abbrev earlier : List ProbeOutcome
earlier = timeout ∷ timeout ∷ passed ∷ []

run_probes-health_example :
    (is_unhealthy (run_probes 0 timeout earlier).health
      ≡ (is_terminal timeout || three_failures (timeout ∷ earlier)))
    × (is_healthy (run_probes 0 timeout earlier).health ≡ not (is_failure timeout))
run_probes-health_example = run_probes-health timeout earlier
