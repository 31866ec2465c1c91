-- ===== src/Gateway/Schedule/Transition.antt =====
-- `nextCostTransition` of packages/gateway-core/src/cost-schedule.ts: the search for the next time at
-- which the cost changes. Times are milliseconds. The search runs on fuel, one unit for each horizon.
use ucli_server.Base.{
  ℕ, zero, suc, ◌+◌, ◌-◌, ◌*◌, ◌/◌, Bool, true, false, ◌&&◌, ◌||◌, not, Option, none, some, List,
  [], ◌∷◌, String, ltb, leb, ◌==◌, if◌then◌else◌,
}
use ucli_server.Base.Lists.{length, filter, any, every}
use ucli_server.Base.Sorting.{sort_by}
use ucli_server.Base.Table.{find?}
use ucli_server.Gateway.Schedule.{ScheduledCost}
use ucli_server.Gateway.Schedule.Resolve.{
  CostSource, ResolvedCost, FallbackCost, Platform, channel_cost_rule, public_model_fallback,
  resolve_prepared, sort_rules, inputs_are_valid,
}

pub record CostTransition : Type 0 where
  pub at : ℕ
  pub cost : Option ResolvedCost

unfoldable pub same_source : CostSource → CostSource → Bool
same_source channel_cost_rule channel_cost_rule = true
same_source public_model_fallback public_model_fallback = true
same_source _ _ = false

-- `sameEffectiveCost`.
unfoldable pub same_effective_cost : Option ResolvedCost → Option ResolvedCost → Bool
unfolding same_source
same_effective_cost none none = true
same_effective_cost (some l) (some r) = (l.id == r.id) && same_source l.source r.source
same_effective_cost _ _ = false

abbrev pub week_in_milliseconds : ℕ
week_in_milliseconds = 691200000

abbrev pub minute_in_milliseconds : ℕ
minute_in_milliseconds = 60000

-- The first loop of `transitionCandidates`, as often as it runs.
unfoldable pub minutes_from : ℕ → ℕ → List ℕ
minutes_from zero value = []
minutes_from (suc n) value = value ∷ minutes_from n (value + minute_in_milliseconds)

-- A value added to a set that is kept in ascending order.
unfoldable pub add_value : ℕ → List ℕ → List ℕ
add_value b [] = b ∷ []
add_value b (x ∷ xs) =
    let rest = add_value b xs in if b == x then x ∷ xs else if ltb b x then b ∷ x ∷ xs else x ∷ rest

unfoldable pub add_boundaries : ℕ → ℕ → List ℕ → List ℕ → List ℕ
unfolding add_value
add_boundaries from until [] values = values
add_boundaries from until (b ∷ bs) values =
    let rest = add_boundaries from until bs values in
    if ltb from b && leb b until then add_value b rest else rest

-- `transitionCandidates`.
unfoldable pub transition_candidates : ℕ → ℕ → List ℕ → List ℕ
unfolding minutes_from add_boundaries
transition_candidates from until boundaries =
    let first = from / minute_in_milliseconds * minute_in_milliseconds + minute_in_milliseconds in
    add_boundaries from until boundaries
      (minutes_from ((until + minute_in_milliseconds - first) / minute_in_milliseconds) first)

pub data Search : Type 0 where
  type_error null out_of_fuel : Search
  found : CostTransition → Search

-- What one run over the candidates ends with.
pub data Scan : Type 0 where
  threw unchanged : Scan
  changed : CostTransition → Scan

-- The resolution at a time, with all else fixed.
abbrev pub Costs : Type 0
Costs = ℕ → Option (Option ResolvedCost)

-- The loop over the candidates.
unfoldable pub scan : Costs → Option ResolvedCost → List ℕ → Scan
unfolding same_effective_cost
scan costs current [] = unchanged
scan costs current (candidate ∷ later) = elim (costs candidate) [
  | none ↦ threw
  | some next ↦ (elim (same_effective_cost current next) [
    | false ↦ changed (record { at = candidate; cost = next })
    | true ↦ scan costs next later
  ])
]

-- The loop over the horizons.
unfoldable pub search_horizons : ℕ → Costs → List ℕ → ℕ → Option ResolvedCost → ℕ → Search
unfolding scan transition_candidates
search_horizons zero costs boundaries cursor current horizon = out_of_fuel
search_horizons (suc fuel) costs boundaries cursor current horizon =
    elim (scan costs current (transition_candidates cursor horizon boundaries)) [
      | threw ↦ type_error
      | changed t ↦ found t
      | unchanged ↦ (elim (find? (ltb horizon) boundaries) [
        | none ↦ null
        | some b ↦ (elim (costs (b - 1)) [
          | none ↦ type_error
          | some cost ↦
              search_horizons fuel costs boundaries (b - 1) cost (b + week_in_milliseconds)
        ])
      ])
    ]

-- The starts and ends of validity.
unfoldable pub validity_times : List ScheduledCost → List ℕ
validity_times [] = []
validity_times (r ∷ rs) =
    let rest = validity_times rs in
    r.valid_from ∷ (elim r.valid_until [ none ↦ rest | some t ↦ t ∷ rest ])

unfoldable pub future_boundaries : ℕ → List ScheduledCost → List ℕ
unfolding sort_by validity_times
future_boundaries at rules = sort_by ltb (filter (ltb at) (validity_times rules))

-- `validNow` is not empty.
unfoldable pub some_valid_now : ℕ → List ScheduledCost → Bool
some_valid_now at rules =
    any
      (λ r.
        r.enabled
        && leb r.valid_from at
        && (elim r.valid_until [ none ↦ true | some t ↦ ltb at t ]))
      rules

-- The rules that are enabled cover all the week.
unfoldable pub covers_week : List ScheduledCost → Bool
covers_week rules =
    every (λ r. not r.enabled || ((r.start_minute == r.end_minute) && (length r.days_of_week == 7)))
      rules

-- The first cursor and horizon.
unfoldable pub search_from : ℕ → Costs → List ℕ → Bool → ℕ → Option ResolvedCost → Search
unfolding search_horizons
search_from fuel costs [] valid_now at current =
    search_horizons fuel costs [] at current (at + week_in_milliseconds)
search_from fuel costs (b ∷ bs) valid_now at current =
    if valid_now
    then search_horizons fuel costs (b ∷ bs) at current (at + week_in_milliseconds)
    else elim (costs (b - 1)) [
      | none ↦ type_error
      | some cost ↦ search_horizons fuel costs (b ∷ bs) (b - 1) cost (b + week_in_milliseconds)
    ]

-- The search after the tests, with its two early returns.
unfoldable pub search_rules :
    ℕ → Costs → List ScheduledCost → List ℕ → ℕ → Option ResolvedCost → Search
unfolding search_from covers_week some_valid_now
search_rules fuel costs rules boundaries at current =
    if not (any (λ r. r.enabled) rules)
    then null
    else if (length boundaries == 0) && covers_week rules
    then null
    else search_from fuel costs boundaries (some_valid_now at rules) at current

-- `nextCostTransition`.
unfoldable pub next_cost_transition :
    Platform → List ScheduledCost → Option FallbackCost → ℕ → String → Search
unfolding resolve_prepared sort_rules inputs_are_valid future_boundaries search_rules
next_cost_transition p rules fallback at zone =
    let costs = λ (time : ℕ). resolve_prepared p.format (sort_rules p rules) fallback time zone in
    let boundaries = future_boundaries at rules in
    if inputs_are_valid p rules fallback zone
    then (elim (costs at) [
      | none ↦ type_error
      | some current ↦ search_rules (suc (length boundaries)) costs rules boundaries at current
    ])
    else type_error
