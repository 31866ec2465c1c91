-- ===== src/Gateway/Cost/Examples.antt =====
-- Runs of packages/gateway-core/src/cost.ts on two prices.
use ucli_server.Base.{◌+◌, ◌≤◌, ◌≡◌, refl, [], ◌∷◌, some, arith}
use ucli_server.Base.Table.{All}
use ucli_server.Budget.Result.{ok}
use ucli_server.Gateway.Cost.{
  PriceSnapshot, TokenCounts, estimate_procurement_cost, calculate_cost, estimate_budget_cost,
  highest_reservation_cost,
}
use ucli_server.Gateway.Cost.Bounds.{
  IsWithin, estimate_procurement_cost-total, estimate_budget_cost-covers,
  highest_reservation_cost-covers,
}

-- 2, 8, 0.5 and 8 CNY for a million tokens.
abbrev small : PriceSnapshot
small = record {
  input_per_million = 200000000;
  output_per_million = 800000000;
  cached_per_million = 50000000;
  reasoning_per_million = 800000000;
}

abbrev large : PriceSnapshot
large = record small { input_per_million = 300000001 }

abbrev usage : TokenCounts
usage = record { input_tokens = 101; output_tokens = 33; cached_tokens = 7; reasoning_tokens = 5 }

-- 0.00045550 CNY.
cost_test : calculate_cost usage small ≡ 45550
unfolding calculate_cost
cost_test = refl

estimate_procurement_cost-total_example :
    (calculate_cost usage large ≡ (estimate_procurement_cost large usage).total_cost)
    × (calculate_cost usage large
        ≤ (estimate_procurement_cost large usage).input_cost
          + (estimate_procurement_cost large usage).output_cost
          + (estimate_procurement_cost large usage).cached_cost
          + (estimate_procurement_cost large usage).reasoning_cost
          + 2)
    × ((estimate_procurement_cost large usage).input_cost
          + (estimate_procurement_cost large usage).output_cost
          + (estimate_procurement_cost large usage).cached_cost
          + (estimate_procurement_cost large usage).reasoning_cost
        ≤ calculate_cost usage large + 2)
estimate_procurement_cost-total_example = estimate_procurement_cost-total large usage

usage-IsWithin : IsWithin 120 50 usage
usage-IsWithin = record {
  cached = omega arith;
  input = omega arith;
  reasoning = omega arith;
  output = omega arith;
}

estimate_test : estimate_budget_cost 120 50 (small ∷ large ∷ []) ≡ ok 76001
unfolding estimate_budget_cost
estimate_test = refl

estimate_budget_cost-covers_example : All (λ p. calculate_cost usage p ≤ 76001) (small ∷ large ∷ [])
estimate_budget_cost-covers_example =
    estimate_budget_cost-covers 120 50 76001 usage (small ∷ large ∷ []) estimate_test usage-IsWithin

highest_test : highest_reservation_cost (small ∷ large ∷ []) ≡ some large
unfolding highest_reservation_cost
highest_test = refl

highest_reservation_cost-covers_example :
    All (λ c. calculate_cost usage c ≤ calculate_cost usage large) (small ∷ large ∷ [])
highest_reservation_cost-covers_example =
    highest_reservation_cost-covers usage (small ∷ large ∷ []) large highest_test
