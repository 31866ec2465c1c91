-- ===== src/Gateway/Schedule/Resolve.antt =====
-- The cost of a channel at a time, in packages/gateway-core/src/cost-schedule.ts. What
-- `Intl.DateTimeFormat` says of a time in a timezone, what `Decimal` says of a text and the order of
-- `localeCompare` are parameters. `none` is a TypeError that was thrown. Times are finite.
use ucli_server.Base.{
  ℕ, ◌+◌, ◌*◌, Bool, true, false, ◌&&◌, Option, none, some, List, [], ◌∷◌, String, ltb,
  if◌then◌else◌, or_else,
}
use ucli_server.Base.Int.{ℤ, ltb_ℤ}
use ucli_server.Base.Lists.{every}
use ucli_server.Base.Sorting.{sort_by}
use ucli_server.Base.Table.{find?}
use ucli_server.Base.Text.{codes, same_codes}
use ucli_server.Gateway.Schedule.{ScheduledCost, is_valid, applies}

-- The parts of a formatted time; an hour or a minute is `none` where `Number` gives no integer.
pub record Parts : Type 0 where
  pub weekday : Option String
  pub hour : Option ℕ
  pub minute : Option ℕ

pub record LocalTime : Type 0 where
  pub weekday : ℕ
  pub minute : ℕ

abbrev weekdays : List (String × ℕ)
weekdays =
    ("Mon", 1) ∷ ("Tue", 2) ∷ ("Wed", 3) ∷ ("Thu", 4) ∷ ("Fri", 5) ∷ ("Sat", 6) ∷ ("Sun", 7) ∷ []

-- `WEEKDAYS[text]`.
unfoldable pub weekday_number : List (String × ℕ) → String → Option ℕ
weekday_number [] text = none
weekday_number (w ∷ ws) text =
    let rest = weekday_number ws text in
    if same_codes (codes w.0) (codes text) then some w.1 else rest

-- The last lines of `localTime`.
unfoldable pub local_parts : Parts → Option LocalTime
unfolding weekday_number
local_parts p = elim p.hour [
  | none ↦ none
  | some h ↦ (elim p.minute [
    | none ↦ none
    | some m ↦ (elim (weekday_number weekdays (or_else p.weekday "")) [
      | none ↦ none
      | some w ↦ some (record { weekday = w; minute = h * 60 + m })
    ])
  ])
]

pub record FallbackCost : Type 0 where
  pub id : ℕ
  pub input_per_million : String
  pub output_per_million : String
  pub cached_per_million : String
  pub reasoning_per_million : String
  pub currency_is_cny : Bool

pub data CostSource : Type 0 where
  channel_cost_rule public_model_fallback : CostSource

-- What a cost takes from the rule's schedule.
pub record RuleInfo : Type 0 where
  pub rule_name : Option String
  pub days_of_week : List ℕ
  pub start_minute : ℕ
  pub end_minute : ℕ
  pub priority : ℤ

pub record ResolvedCost : Type 0 where
  pub id : ℕ
  pub source : CostSource
  pub input_per_million : String
  pub output_per_million : String
  pub cached_per_million : String
  pub reasoning_per_million : String
  pub timezone : String
  pub resolved_at : ℕ
  pub rule : Option RuleInfo

-- `left || right` on two steps of a comparison.
abbrev pub then_by : Bool → Bool → Bool → Bool
then_by lt gt rest = if lt then true else if gt then false else rest

-- The comparison of `sortRules`: the left rule comes first.
unfoldable pub comes_before : (ℕ → ℕ → Bool) → ScheduledCost → ScheduledCost → Bool
comes_before id_before l r = then_by (ltb_ℤ r.priority l.priority) (ltb_ℤ l.priority r.priority) (
    then_by (ltb r.valid_from l.valid_from) (ltb l.valid_from r.valid_from) (
      then_by (ltb r.created_at l.created_at) (ltb l.created_at r.created_at)
        (id_before l.id r.id)))

-- The cost that a rule stands for.
unfoldable pub rule_cost : ScheduledCost → ℕ → String → ResolvedCost
rule_cost r at zone = record {
  id = r.id;
  source = channel_cost_rule;
  input_per_million = r.input_per_million;
  output_per_million = r.output_per_million;
  cached_per_million = r.cached_per_million;
  reasoning_per_million = r.reasoning_per_million;
  timezone = zone;
  resolved_at = at;
  rule = some (record {
    rule_name = r.name;
    days_of_week = r.days_of_week;
    start_minute = r.start_minute;
    end_minute = r.end_minute;
    priority = r.priority;
  });
}

unfoldable pub fallback_cost : FallbackCost → ℕ → String → ResolvedCost
fallback_cost f at zone = record {
  id = f.id;
  source = public_model_fallback;
  input_per_million = f.input_per_million;
  output_per_million = f.output_per_million;
  cached_per_million = f.cached_per_million;
  reasoning_per_million = f.reasoning_per_million;
  timezone = zone;
  resolved_at = at;
  rule = none;
}

-- `validateFallback`.
unfoldable pub fallback_is_valid : (String → Bool) → Option FallbackCost → Bool
fallback_is_valid is_amount none = true
fallback_is_valid is_amount (some f) =
    f.currency_is_cny
    && is_amount f.input_per_million
    && is_amount f.output_per_million
    && is_amount f.cached_per_million
    && is_amount f.reasoning_per_million

abbrev pub Format : Type 0
Format = ℕ → String → Option Parts

-- `localTime`; `none` from the format is its exception.
unfoldable pub local_time : Format → ℕ → String → Option LocalTime
unfolding local_parts
local_time format at zone = elim (format at zone) [ none ↦ none | some p ↦ local_parts p ]

-- The rule that `resolveValidatedChannelCost` finds at a local time.
unfoldable pub rule_at : List ScheduledCost → ℕ → LocalTime → Option ScheduledCost
unfolding applies
rule_at rules at t = find? (λ r. applies r at t.weekday t.minute) rules

-- `resolveValidatedChannelCost`.
unfoldable pub resolve_validated :
    Format → List ScheduledCost → ℕ → String → Option (Option ResolvedCost)
unfolding local_time rule_at rule_cost
resolve_validated format rules at zone = elim (local_time format at zone) [
  | none ↦ none
  | some t ↦ (elim (rule_at rules at t) [
    | none ↦ some none
    | some r ↦ some (some (rule_cost r at zone))
  ])
]

-- `resolveWithPreparedRules`.
unfoldable pub resolve_prepared :
    Format → List ScheduledCost → Option FallbackCost → ℕ → String → Option (Option ResolvedCost)
unfolding resolve_validated fallback_cost
resolve_prepared format rules fallback at zone = elim (resolve_validated format rules at zone) [
  | none ↦ none
  | some found ↦ (elim found [
    | some cost ↦ some (some cost)
    | none ↦ (elim fallback [ none ↦ some none | some f ↦ some (some (fallback_cost f at zone)) ])
  ])
]

-- The parameters of this file.
pub record Platform : Type 0 where
  pub format : Format
  pub is_amount : String → Bool
  pub id_before : ℕ → ℕ → Bool

-- `sortRules`.
unfoldable pub sort_rules : Platform → List ScheduledCost → List ScheduledCost
unfolding sort_by comes_before
sort_rules p rules = sort_by (comes_before p.id_before) rules

-- `resolveChannelCost`.
unfoldable pub resolve_channel_cost :
    Platform → List ScheduledCost → ℕ → String → Option (Option ResolvedCost)
unfolding resolve_validated sort_rules is_valid
resolve_channel_cost p rules at zone =
    if every (is_valid p.is_amount) rules
    then resolve_validated p.format (sort_rules p rules) at zone
    else none

-- The tests before a resolution or a search: the rules, the fallback and the timezone
-- (`validateCostTimezone`).
unfoldable pub inputs_are_valid :
    Platform → List ScheduledCost → Option FallbackCost → String → Bool
unfolding is_valid fallback_is_valid local_time
inputs_are_valid p rules fallback zone =
    every (is_valid p.is_amount) rules
    && fallback_is_valid p.is_amount fallback
    && (elim (local_time p.format 0 zone) [ none ↦ false | some t ↦ true ])

-- `resolveChannelCostWithFallback`.
unfoldable pub resolve_with_fallback :
    Platform → List ScheduledCost → Option FallbackCost → ℕ → String → Option (Option ResolvedCost)
unfolding resolve_prepared sort_rules inputs_are_valid
resolve_with_fallback p rules fallback at zone =
    if inputs_are_valid p rules fallback zone
    then resolve_prepared p.format (sort_rules p rules) fallback at zone
    else none
