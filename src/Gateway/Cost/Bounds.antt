-- ===== src/Gateway/Cost/Bounds.antt =====
-- The amounts of packages/gateway-core/src/cost.ts against each other, and against the estimate that a
-- budget reserves.
use native.Mathlib.Nat.{mul-le-mul_left, mul-le-mul_right, add-mul}
use ucli_server.Base.{
  ℕ, ◌+◌, ◌-◌, ◌*◌, ◌/◌, ◌^◌, ◌≤◌, ◌≡◌, refl, some, List, [], ◌∷◌, ltb, if◌then◌else◌, max, arith,
  Bool-cases, inl, inr, subst,
}
use ucli_server.Base.Table.{All}
use ucli_server.Budget.Result.{ok, err, bad_request}
use ucli_server.Gateway.Cost.{
  PriceSnapshot, TokenCounts, to_fixed, to_fixed_ceil, estimate_procurement_cost, calculate_cost,
  worst_cost, maximum, estimate_budget_cost, highest_reservation_cost,
}

-- Four amounts that are rounded before or after they are added.
roundings :
    (a b c d : ℕ)
    → ((a + b + c + d + 500000) / 1000000
        ≤ (a + 500000) / 1000000
          + (b + 500000) / 1000000
          + (c + 500000) / 1000000
          + (d + 500000) / 1000000
          + 2)
      × ((a + 500000) / 1000000
            + (b + 500000) / 1000000
            + (c + 500000) / 1000000
            + (d + 500000) / 1000000
          ≤ (a + b + c + d + 500000) / 1000000 + 2)
roundings a b c d = (omega arith, omega arith)

-- The total of the estimate is the cost that is charged, and the four parts, each rounded by itself, are
-- together at most two units away from it.
pub estimate_procurement_cost-total :
    (price : PriceSnapshot) (usage : TokenCounts)
    → (calculate_cost usage price ≡ (estimate_procurement_cost price usage).total_cost)
      × (calculate_cost usage price
          ≤ (estimate_procurement_cost price usage).input_cost
            + (estimate_procurement_cost price usage).output_cost
            + (estimate_procurement_cost price usage).cached_cost
            + (estimate_procurement_cost price usage).reasoning_cost
            + 2)
      × ((estimate_procurement_cost price usage).input_cost
            + (estimate_procurement_cost price usage).output_cost
            + (estimate_procurement_cost price usage).cached_cost
            + (estimate_procurement_cost price usage).reasoning_cost
          ≤ calculate_cost usage price + 2)
unfolding calculate_cost estimate_procurement_cost to_fixed
estimate_procurement_cost-total price usage =
    let apart =
      roundings ((usage.input_tokens - usage.cached_tokens) * price.input_per_million)
        ((usage.output_tokens - usage.reasoning_tokens) * price.output_per_million)
        (usage.cached_tokens * price.cached_per_million)
        (usage.reasoning_tokens * price.reasoning_per_million) in
    (refl, apart.0, apart.1)

All-weaken :
    {A : Type 0} (f : A → ℕ) (m n : ℕ) (xs : List A)
    → m ≤ n
    → All (λ x. f x ≤ m) xs
    → All (λ x. f x ≤ n) xs
All-weaken f m n [] h k = tt
All-weaken f m n (x ∷ xs) h k = (omega (arith, k.0), All-weaken f m n xs h k.1)

le-maximum : {A : Type 0} (f : A → ℕ) (xs : List A) → All (λ x. f x ≤ maximum f xs) xs
unfolding maximum
le-maximum f [] = tt
le-maximum f (x ∷ xs) = (
  omega arith,
  All-weaken f (maximum f xs) (max (f x) (maximum f xs)) xs (omega arith) (le-maximum f xs),
)

-- Two kinds of tokens, each at its rate, cost at most all of them at the higher rate.
le-mul_max : (n c limit a b : ℕ) → c ≤ n → n ≤ limit → (n - c) * a + c * b ≤ limit * max a b
le-mul_max n c limit a b h k =
    let first : (n - c) * a ≤ (n - c) * max a b = mul-le-mul_left _ (omega arith) in
    let second : c * b ≤ c * max a b = mul-le-mul_left _ (omega arith) in
    let all : n * max a b ≤ limit * max a b = mul-le-mul_right _ k in
    let split : (n - c + c) * max a b ≡ (n - c) * max a b + c * max a b =
      add-mul (n - c) c (max a b) in
    let joined : n - c + c ≡ n = omega arith in
    let sum : n * max a b ≡ (n - c) * max a b + c * max a b =
      subst (λ k. k * max a b ≡ (n - c) * max a b + c * max a b) joined split in
    omega (arith, first, second, all, sum)

-- The counts of a request that keeps within what was estimated; cached tokens are among the input, and
-- reasoning tokens among the output.
pub record IsWithin (input_tokens output_tokens : ℕ) (usage : TokenCounts) : Type 0 where
  pub cached : usage.cached_tokens ≤ usage.input_tokens
  pub input : usage.input_tokens ≤ input_tokens
  pub reasoning : usage.reasoning_tokens ≤ usage.output_tokens
  pub output : usage.output_tokens ≤ output_tokens

to_fixed-le_ceil : (n m : ℕ) → n ≤ m → to_fixed n ≤ to_fixed_ceil m
unfolding to_fixed to_fixed_ceil
to_fixed-le_ceil n m h = omega arith

calculate_cost-worst :
    (input_tokens output_tokens bound : ℕ) (usage : TokenCounts) (price : PriceSnapshot)
    → IsWithin input_tokens output_tokens usage
    → worst_cost input_tokens output_tokens price ≤ bound
    → calculate_cost usage price ≤ to_fixed_ceil bound
unfolding calculate_cost worst_cost
calculate_cost-worst input_tokens output_tokens bound usage price w h =
    let ins =
      le-mul_max usage.input_tokens usage.cached_tokens input_tokens price.input_per_million
        price.cached_per_million w.cached w.input in
    let outs =
      le-mul_max usage.output_tokens usage.reasoning_tokens output_tokens price.output_per_million
        price.reasoning_per_million w.reasoning w.output in
    to_fixed-le_ceil _ bound (omega (arith, ins, outs, h))

All-worst :
    (input_tokens output_tokens bound : ℕ) (usage : TokenCounts) (prices : List PriceSnapshot)
    → IsWithin input_tokens output_tokens usage
    → All (λ p. worst_cost input_tokens output_tokens p ≤ bound) prices
    → All (λ p. calculate_cost usage p ≤ to_fixed_ceil bound) prices
All-worst input_tokens output_tokens bound usage [] w h = tt
All-worst input_tokens output_tokens bound usage (p ∷ ps) w h = (
  calculate_cost-worst input_tokens output_tokens bound usage p w h.0,
  All-worst input_tokens output_tokens bound usage ps w h.1,
)

-- The estimate that a budget reserves covers the request: whichever of the prices is charged, what a
-- request costs that keeps within the estimated tokens is at most the estimate.
pub estimate_budget_cost-covers :
    (input_tokens output_tokens amount : ℕ) (usage : TokenCounts) (prices : List PriceSnapshot)
    → estimate_budget_cost input_tokens output_tokens prices ≡ ok amount
    → IsWithin input_tokens output_tokens usage
    → All (λ p. calculate_cost usage p ≤ amount) prices
unfolding estimate_budget_cost
estimate_budget_cost-covers input_tokens output_tokens amount usage [] e w = tt
estimate_budget_cost-covers input_tokens output_tokens amount usage (p ∷ ps) e w =
    let bound = maximum (worst_cost input_tokens output_tokens) (p ∷ ps) in
    let all = All-worst input_tokens output_tokens bound usage (p ∷ ps) w (le-maximum _ (p ∷ ps)) in
    let same : to_fixed_ceil bound ≡ amount = accepted (to_fixed_ceil bound) e in
    subst (λ n. All (λ q. calculate_cost usage q ≤ n) (p ∷ ps)) same all
  where
    accepted :
        (n : ℕ) → (if ltb n (10 ^ 20) then ok n else err bad_request) ≡ ok amount → n ≡ amount
    accepted n h = elim (Bool-cases (ltb n (10 ^ 20))) [
      | inl t ↦ let kept : ok n ≡ ok amount = ground arith in cc
      | inr t ↦ ground arith
    ]

record AreHigher (c h : PriceSnapshot) : Type 0 where
  input : c.input_per_million ≤ h.input_per_million
  output : c.output_per_million ≤ h.output_per_million
  cached : c.cached_per_million ≤ h.cached_per_million
  reasoning : c.reasoning_per_million ≤ h.reasoning_per_million

to_fixed_mono : (n m : ℕ) → n ≤ m → to_fixed n ≤ to_fixed m
unfolding to_fixed
to_fixed_mono n m h = omega arith

calculate_cost_mono :
    (usage : TokenCounts) (c h : PriceSnapshot)
    → AreHigher c h
    → calculate_cost usage c ≤ calculate_cost usage h
unfolding calculate_cost
calculate_cost_mono usage c h k = to_fixed_mono _ _ (
    omega (
      arith,
      mul-le-mul_left (usage.input_tokens - usage.cached_tokens) k.input,
      mul-le-mul_left (usage.output_tokens - usage.reasoning_tokens) k.output,
      mul-le-mul_left usage.cached_tokens k.cached,
      mul-le-mul_left usage.reasoning_tokens k.reasoning,
    ))

All-higher :
    (usage : TokenCounts) (h : PriceSnapshot) (cs : List PriceSnapshot)
    → All (λ c. c.input_per_million ≤ h.input_per_million) cs
    → All (λ c. c.output_per_million ≤ h.output_per_million) cs
    → All (λ c. c.cached_per_million ≤ h.cached_per_million) cs
    → All (λ c. c.reasoning_per_million ≤ h.reasoning_per_million) cs
    → All (λ c. calculate_cost usage c ≤ calculate_cost usage h) cs
All-higher usage h [] i o k r = tt
All-higher usage h (c ∷ cs) i o k r = (
  calculate_cost_mono usage c h
      (record { input = i.0; output = o.0; cached = k.0; reasoning = r.0 }),
  All-higher usage h cs i.1 o.1 k.1 r.1,
)

-- The price that a reservation takes from several costs charges any request at least as much as each
-- of them does.
pub highest_reservation_cost-covers :
    (usage : TokenCounts) (costs : List PriceSnapshot) (highest : PriceSnapshot)
    → highest_reservation_cost costs ≡ some highest
    → All (λ c. calculate_cost usage c ≤ calculate_cost usage highest) costs
unfolding highest_reservation_cost
highest_reservation_cost-covers usage [] highest e = tt
highest_reservation_cost-covers usage (c ∷ cs) highest e =
    let same : _ ≡ highest = cc in
    subst (λ h. All (λ d. calculate_cost usage d ≤ calculate_cost usage h) (c ∷ cs)) same
      (All-higher usage _ (c ∷ cs) (le-maximum _ (c ∷ cs)) (le-maximum _ (c ∷ cs))
        (le-maximum _ (c ∷ cs)) (le-maximum _ (c ∷ cs)))
