-- ===== src/Gateway/Health/Trail.antt =====
-- What the newest probes say of the health, in packages/gateway-core/src/model-health.ts.
use ucli_server.Base.{
  ℕ, suc, ◌≡◌, refl, Bool, true, false, ◌&&◌, ◌||◌, List, [], ◌∷◌, leb, arith, if◌then◌else◌, not,
}
use ucli_server.Gateway.Health.{
  ProbeOutcome, Health, passed, failed, healthy, unhealthy, next_model_health, run_probes,
}

abbrev pub is_failure : ProbeOutcome → Bool
is_failure passed = false
is_failure (failed terminal code) = true

abbrev pub is_terminal : ProbeOutcome → Bool
is_terminal passed = false
is_terminal (failed terminal code) = terminal

abbrev pub is_unhealthy : Health → Bool
is_unhealthy unhealthy = true
is_unhealthy _ = false

abbrev pub is_healthy : Health → Bool
is_healthy healthy = true
is_healthy _ = false

-- The newest two, and the newest three probes failed.
abbrev pub two_failures : List ProbeOutcome → Bool
two_failures (a ∷ b ∷ os) = is_failure a && is_failure b
two_failures _ = false

abbrev pub three_failures : List ProbeOutcome → Bool
three_failures (a ∷ os) = is_failure a && two_failures os
three_failures [] = false

-- The count of failures that a run of probes leaves, from none.
failures : List ProbeOutcome → ℕ
unfolding run_probes
failures [] = 0
failures (o ∷ os) = (run_probes 0 o os).consecutive_failures

run_probes-step :
    (o : ProbeOutcome) (os : List ProbeOutcome)
    → run_probes 0 o os ≡ next_model_health (failures os) o
unfolding run_probes failures
run_probes-step o [] = refl
run_probes-step o (p ∷ ps) = refl

failures-cons :
    (o : ProbeOutcome) (os : List ProbeOutcome)
    → failures (o ∷ os) ≡ (if is_failure o then suc (failures os) else 0)
unfolding failures next_model_health
failures-cons passed os = rw (failures, run_probes-step passed os) refl
failures-cons (failed t c) os = rw (failures, run_probes-step (failed t c) os) refl

failures-nil : failures [] ≡ 0
unfolding failures
failures-nil = refl

failures-two : (os : List ProbeOutcome) → leb 2 (failures os) ≡ two_failures os
failures-two [] = ground (arith, failures-nil)
failures-two (a ∷ []) = ground (arith, failures-cons a [], failures-nil)
failures-two (a ∷ b ∷ os) = ground (arith, failures-cons a (b ∷ os), failures-cons b os)

unhealthy_after :
    (n : ℕ) (o : ProbeOutcome)
    → is_unhealthy (next_model_health n o).health ≡ (is_terminal o || (is_failure o && leb 2 n))
unfolding next_model_health
unhealthy_after n passed = refl
unhealthy_after n (failed t c) = ground arith

healthy_after :
    (n : ℕ) (o : ProbeOutcome) → is_healthy (next_model_health n o).health ≡ not (is_failure o)
unfolding next_model_health
healthy_after n passed = refl
healthy_after n (failed t c) = ground arith

-- After a run of probes from no failures a model is unhealthy exactly if the newest probe failed for
-- good or the newest three failed, and healthy exactly if the newest one passed.
pub run_probes-health :
    (o : ProbeOutcome) (os : List ProbeOutcome)
    → (is_unhealthy (run_probes 0 o os).health ≡ (is_terminal o || three_failures (o ∷ os)))
      × (is_healthy (run_probes 0 o os).health ≡ not (is_failure o))
run_probes-health o os =
    rw (run_probes-step o os)
      (rw (← failures-two os) (unhealthy_after (failures os) o), healthy_after (failures os) o)
