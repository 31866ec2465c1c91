-- ===== src/Gateway/Schedule/Examples.antt =====
-- Runs of packages/gateway-core/src/cost-schedule.ts on two rules.
use ucli_server.Base.{
  ◌-◌, ◌*◌, ◌+◌, ◌≡◌, refl, Bool, true, false, ◌&&◌, none, some, [], ◌∷◌, String, ◌≤◌, ◌<◌, arith,
  List, ltb, ◌%◌, ◌/◌, ◌≢◌,
}
use ucli_server.Base.Int.{pos}
use ucli_server.Base.Sorting.{IsOrder}
use ucli_server.Base.Lists.{get_elem?}
use ucli_server.Gateway.Schedule.{
  ScheduledCost, is_valid, matches_local_time, applies, weekly_minutes, cost_rules_overlap,
}
use ucli_server.Gateway.Schedule.Overlap.{weekly_minutes-matches, apart-apply_never}
use ucli_server.Gateway.Schedule.Transition.{
  CostTransition, found, next_cost_transition, out_of_fuel,
}
use ucli_server.Gateway.Schedule.Resolve.{
  Format, LocalTime, Platform, local_time, resolve_channel_cost, rule_cost,
}
use ucli_server.Gateway.Schedule.Progress.{
  IsChange, costs_of, next_cost_transition-IsChange, next_cost_transition-ends,
}
use ucli_server.Gateway.Schedule.Best.{Resolves, resolve_channel_cost-Resolves}

abbrev is_amount : String → Bool
is_amount text = true

-- Sunday, from 23:00 to 02:00 of Monday.
abbrev night : ScheduledCost
night = record {
  id = 1;
  name = some "night";
  priority = pos 0;
  input_per_million = "1";
  output_per_million = "2";
  cached_per_million = "1";
  reasoning_per_million = "2";
  currency_is_cny = true;
  days_of_week = 7 ∷ [];
  start_minute = 1380;
  end_minute = 120;
  valid_from = 100;
  valid_until = some 900;
  created_at = 5;
  enabled = true;
}

-- A rule that begins when the first one ends.
abbrev later : ScheduledCost
later = record night { valid_from = 900; valid_until = none }

night-valid : is_valid is_amount night ≡ true
unfolding is_valid
night-valid = refl

apart : cost_rules_overlap is_amount night later ≡ some false
unfolding cost_rules_overlap
apart = refl

monday : 1 ≤ 1
monday = ground arith

in_week : 1 ≤ 7
in_week = ground arith

in_day : 60 < 1440
in_day = ground arith

-- 01:00 of Monday.
night_test : matches_local_time night 1 60 ≡ true
unfolding matches_local_time
night_test = refl

weekly_minutes-matches_example :
    weekly_minutes night ((1 - 1) * 1440 + 60) ≡ matches_local_time night 1 60
weekly_minutes-matches_example =
    weekly_minutes-matches is_amount night 1 60 night-valid monday in_week in_day

apart-apply_never_example : (applies night 500 1 60 && applies later 500 1 60) ≡ false
apart-apply_never_example =
    apart-apply_never is_amount night later 500 1 60 apart monday in_week in_day

-- A clock of UTC without months: time 0 is a Thursday.
abbrev day_names : List String
day_names = "Thu" ∷ "Fri" ∷ "Sat" ∷ "Sun" ∷ "Mon" ∷ "Tue" ∷ "Wed" ∷ []

abbrev utc : Format
utc at zone = some (record {
  weekday = get_elem? day_names (at / 86400000 % 7);
  hour = some (at / 3600000 % 24);
  minute = some (at / 60000 % 60);
})

abbrev platform : Platform
platform = record { format = utc; is_amount = is_amount; id_before = ltb }

ltb-IsOrder : IsOrder ltb
ltb-IsOrder = record { asym = λ x y h. ground arith; ties = λ x y z h k. ground arith }

-- All of Thursday, at a price of its own and a higher priority.
abbrev thursday : ScheduledCost
thursday = record night {
  id = 2;
  priority = pos 1;
  days_of_week = 4 ∷ [];
  start_minute = 0;
  end_minute = 2;
  valid_from = 0;
  valid_until = some 500000;
}

abbrev every_day : ScheduledCost
every_day = record night {
  id = 3;
  days_of_week = 1 ∷ 2 ∷ 3 ∷ 4 ∷ 5 ∷ 6 ∷ 7 ∷ [];
  start_minute = 0;
  end_minute = 0;
  valid_from = 0;
  valid_until = none;
}

abbrev prices : List ScheduledCost
prices = every_day ∷ thursday ∷ []

resolve_test :
    resolve_channel_cost platform prices 60000 "UTC" ≡ some (some (rule_cost thursday 60000 "UTC"))
unfolding resolve_channel_cost rule_cost
resolve_test = refl

resolve_channel_cost-Resolves_example :
    (t : LocalTime) × (local_time utc 60000 "UTC" ≡ some t)
    × Resolves platform prices 60000 "UTC" t (some (rule_cost thursday 60000 "UTC"))
resolve_channel_cost-Resolves_example =
    resolve_channel_cost-Resolves platform ltb-IsOrder prices 60000 "UTC"
      (some (rule_cost thursday 60000 "UTC")) resolve_test

-- The minute at which the rule of Thursday ends.
abbrev change : CostTransition
change = record { at = 120000; cost = some (rule_cost every_day 120000 "UTC") }

transition_test : next_cost_transition platform prices none 60000 "UTC" ≡ found change
unfolding next_cost_transition rule_cost
transition_test = refl

next_cost_transition-ends_example :
    next_cost_transition platform prices none 60000 "UTC" ≢ out_of_fuel
next_cost_transition-ends_example = next_cost_transition-ends platform prices none 60000 "UTC"

next_cost_transition-IsChange_example : IsChange (costs_of platform prices none "UTC") 60000 change
next_cost_transition-IsChange_example =
    next_cost_transition-IsChange platform prices none 60000 "UTC" change transition_test
