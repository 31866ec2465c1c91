-- ===== src/Gateway/Schedule.antt =====
-- packages/gateway-core/src/cost-schedule.ts: the rules that price a channel by the local time of the
-- week, and the test that two rules do not meet. Days, minutes and times are numbers.
pub mod Overlap
pub mod Resolve
pub mod Best
pub mod Transition
pub mod Progress
mod Examples
use ucli_server.Base.{
  ℕ, zero, suc, ◌+◌, ◌-◌, ◌*◌, Bool, true, false, ◌&&◌, ◌||◌, not, Option, none, some, List, [],
  ◌∷◌, String, ltb, leb, ◌==◌, if◌then◌else◌,
}
use ucli_server.Base.Int.{ℤ}
use ucli_server.Base.Lists.{length, any, every, includes}

pub record ScheduledCost : Type 0 where
  pub id : ℕ
  pub name : Option String
  pub priority : ℤ
  pub input_per_million : String
  pub output_per_million : String
  pub cached_per_million : String
  pub reasoning_per_million : String
  pub currency_is_cny : Bool
  pub days_of_week : List ℕ
  pub start_minute : ℕ
  pub end_minute : ℕ
  pub valid_from : ℕ
  pub valid_until : Option ℕ
  pub created_at : ℕ
  pub enabled : Bool

-- `validateScheduledCost`, where `is_amount` is what `Decimal` says of a text: that it is finite and
-- not negative.
unfoldable pub is_valid : (String → Bool) → ScheduledCost → Bool
is_valid is_amount r =
    r.currency_is_cny
    && is_amount r.input_per_million
    && is_amount r.output_per_million
    && is_amount r.cached_per_million
    && is_amount r.reasoning_per_million
    && not (length r.days_of_week == 0)
    && every (λ d. leb 1 d && leb d 7) r.days_of_week
    && leb r.start_minute 1439
    && leb r.end_minute 1439

unfoldable pub matches_local_time : ScheduledCost → ℕ → ℕ → Bool
matches_local_time r weekday minute =
    if r.start_minute == r.end_minute
    then includes r.days_of_week weekday
    else if ltb r.start_minute r.end_minute
    then includes r.days_of_week weekday && leb r.start_minute minute && ltb minute r.end_minute
    else (includes r.days_of_week weekday && leb r.start_minute minute)
      || (includes r.days_of_week (if weekday == 1 then 7 else weekday - 1)
          && ltb minute r.end_minute)

-- The test of `resolveValidatedChannelCost` on one rule, at a time and at its local weekday and minute.
unfoldable pub applies : ScheduledCost → ℕ → ℕ → ℕ → Bool
unfolding matches_local_time
applies r at weekday minute =
    r.enabled
    && leb r.valid_from at
    && (elim r.valid_until [ none ↦ true | some t ↦ ltb at t ])
    && matches_local_time r weekday minute

-- The array of the minutes of a week, from the first one of Monday.
abbrev pub Minutes : Type 0
Minutes = ℕ → Bool

-- `mark`.
unfoldable pub mark : Minutes → ℕ → ℕ → ℕ → Minutes
mark minutes weekday first last =
    λ i. (leb ((weekday - 1) * 1440 + first) i && ltb i ((weekday - 1) * 1440 + last)) || minutes i

-- One weekday of `weeklyMinutes`.
unfoldable pub mark_day : ScheduledCost → Minutes → ℕ → Minutes
unfolding mark
mark_day r minutes weekday =
    if r.start_minute == r.end_minute
    then mark minutes weekday 0 1440
    else if ltb r.start_minute r.end_minute
    then mark minutes weekday r.start_minute r.end_minute
    else mark (mark minutes weekday r.start_minute 1440) (if weekday == 7 then 1 else weekday + 1) 0
        r.end_minute

unfoldable pub mark_days : ScheduledCost → Minutes → List ℕ → Minutes
unfolding mark_day
mark_days r minutes [] = minutes
mark_days r minutes (d ∷ ds) = mark_days r (mark_day r minutes d) ds

unfoldable pub weekly_minutes : ScheduledCost → Minutes
unfolding mark_days
weekly_minutes r = mark_days r (λ i. false) r.days_of_week

-- `some`, on the first indices of an array.
unfoldable pub some_below : ℕ → (ℕ → Bool) → Bool
some_below zero f = false
some_below (suc n) f = f n || some_below n f

-- One rule ends before another begins.
abbrev pub ends_before : ScheduledCost → ScheduledCost → Bool
ends_before l r = elim l.valid_until [ none ↦ false | some t ↦ leb t r.valid_from ]

-- `costRulesOverlap`; `none` is the exception of a rule that is not valid.
unfoldable pub cost_rules_overlap : (String → Bool) → ScheduledCost → ScheduledCost → Option Bool
unfolding is_valid some_below weekly_minutes
cost_rules_overlap is_amount l r =
    if not (is_valid is_amount l) || not (is_valid is_amount r)
    then none
    else if not l.enabled || not r.enabled
    then some false
    else if ends_before l r || ends_before r l
    then some false
    else some (some_below 10080 (λ i. weekly_minutes l i && weekly_minutes r i))
