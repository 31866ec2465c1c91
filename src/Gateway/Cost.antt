-- ===== src/Gateway/Cost.antt =====
-- packages/gateway-core/src/cost.ts, and the estimate of packages/quota/src/group-budget.ts: what a
-- request costs. A rate is a number of units of 0.00000001 CNY for a million tokens, so a product of a
-- count and a rate is exact; it is taken to have at most the 20 digits that `Decimal` keeps.
pub mod Bounds
mod Examples
use ucli_server.Base.{
  ℕ, ◌+◌, ◌-◌, ◌*◌, ◌/◌, ◌^◌, Bool, Option, none, some, List, [], ◌∷◌, ltb, if◌then◌else◌, max, map,
}
use ucli_server.Budget.Result.{Result, ok, err, bad_request}

-- `PriceSnapshot`.
pub record PriceSnapshot : Type 0 where
  pub input_per_million : ℕ
  pub output_per_million : ℕ
  pub cached_per_million : ℕ
  pub reasoning_per_million : ℕ

pub record TokenCounts : Type 0 where
  pub input_tokens : ℕ
  pub output_tokens : ℕ
  pub cached_tokens : ℕ
  pub reasoning_tokens : ℕ

-- An amount that is read after a division by a million: `toFixed(8)` rounds half up.
unfoldable pub to_fixed : ℕ → ℕ
to_fixed n = (n + 500000) / 1000000

-- `toFixed(8, Decimal.ROUND_CEIL)`.
unfoldable pub to_fixed_ceil : ℕ → ℕ
to_fixed_ceil n = (n + 999999) / 1000000

pub record CostEstimate : Type 0 where
  pub input_cost : ℕ
  pub output_cost : ℕ
  pub cached_cost : ℕ
  pub reasoning_cost : ℕ
  pub total_cost : ℕ

-- `estimateProcurementCost`.
unfoldable pub estimate_procurement_cost : PriceSnapshot → TokenCounts → CostEstimate
unfolding to_fixed
estimate_procurement_cost price usage =
    let input_cost = (usage.input_tokens - usage.cached_tokens) * price.input_per_million in
    let output_cost = (usage.output_tokens - usage.reasoning_tokens) * price.output_per_million in
    let cached_cost = usage.cached_tokens * price.cached_per_million in
    let reasoning_cost = usage.reasoning_tokens * price.reasoning_per_million in
    record {
      input_cost = to_fixed input_cost;
      output_cost = to_fixed output_cost;
      cached_cost = to_fixed cached_cost;
      reasoning_cost = to_fixed reasoning_cost;
      total_cost = to_fixed (input_cost + output_cost + cached_cost + reasoning_cost);
    }

-- `calculateCost`.
unfoldable pub calculate_cost : TokenCounts → PriceSnapshot → ℕ
unfolding to_fixed
calculate_cost usage price =
    let non_cached_input = usage.input_tokens - usage.cached_tokens in
    let non_reasoning_output = usage.output_tokens - usage.reasoning_tokens in
    to_fixed (
      non_cached_input * price.input_per_million
      + non_reasoning_output * price.output_per_million
      + usage.cached_tokens * price.cached_per_million
      + usage.reasoning_tokens * price.reasoning_per_million)

-- What `estimateBudgetCost` takes the maximum of, for one price.
unfoldable pub worst_cost : ℕ → ℕ → PriceSnapshot → ℕ
worst_cost input_tokens output_tokens price =
    input_tokens * max price.input_per_million price.cached_per_million
    + output_tokens * max price.output_per_million price.reasoning_per_million

unfoldable pub maximum {ℓ} : {A : Type ℓ} → (A → ℕ) → List A → ℕ
maximum f [] = 0
maximum f (x ∷ xs) = max (f x) (maximum f xs)

-- `estimateBudgetCost`; `cny` refuses an amount with more than 12 integer digits.
unfoldable pub estimate_budget_cost : ℕ → ℕ → List PriceSnapshot → Result ℕ
unfolding to_fixed_ceil worst_cost maximum
estimate_budget_cost input_tokens output_tokens [] = err bad_request
estimate_budget_cost input_tokens output_tokens (price ∷ prices) =
    let cost = to_fixed_ceil (maximum (worst_cost input_tokens output_tokens) (price ∷ prices)) in
    if ltb cost (10 ^ 20) then ok cost else err bad_request

-- `highestReservationCost` of packages/gateway-core/src/cost-schedule.ts.
unfoldable pub highest_reservation_cost : List PriceSnapshot → Option PriceSnapshot
unfolding maximum
highest_reservation_cost [] = none
highest_reservation_cost (cost ∷ costs) = some (record {
  input_per_million = maximum (λ c. c.input_per_million) (cost ∷ costs);
  output_per_million = maximum (λ c. c.output_per_million) (cost ∷ costs);
  cached_per_million = maximum (λ c. c.cached_per_million) (cost ∷ costs);
  reasoning_per_million = maximum (λ c. c.reasoning_per_million) (cost ∷ costs);
})
