-- ===== src/Gateway/Schedule/Overlap.antt =====
-- The week's array of minutes in packages/gateway-core/src/cost-schedule.ts against the test of a
-- local time.
use ucli_server.Base.{
  ℕ, zero, suc, ◌+◌, ◌-◌, ◌*◌, ◌≤◌, ◌<◌, ◌≡◌, refl, sym, ◌∙◌, inl, inr, Bool, true, false, ◌&&◌,
  ◌||◌, not, none, some, List, [], ◌∷◌, String, ltb, leb, ◌==◌, if◌then◌else◌, arith, Bool-cases,
}
use ucli_server.Base.Lists.{any, every, includes}
use ucli_server.Gateway.Schedule.{
  ScheduledCost, is_valid, matches_local_time, applies, Minutes, mark, mark_day, mark_days,
  weekly_minutes, some_below, ends_before, cost_rules_overlap,
}

-- What one weekday of a rule covers.
unfoldable covers : ScheduledCost → ℕ → ℕ → Bool
unfolding mark_day
covers r d i = mark_day r (λ j. false) d i

unfoldable day_matches : ScheduledCost → ℕ → ℕ → ℕ → Bool
day_matches r w minute d =
    if r.start_minute == r.end_minute
    then d == w
    else if ltb r.start_minute r.end_minute
    then (d == w) && (leb r.start_minute minute && ltb minute r.end_minute)
    else ((d == w) && leb r.start_minute minute)
      || ((d == (if w == 1 then 7 else w - 1)) && ltb minute r.end_minute)

mark_day-covers :
    (r : ScheduledCost) (m : Minutes) (d i : ℕ) → mark_day r m d i ≡ (covers r d i || m i)
unfolding covers mark_day mark
mark_day-covers r m d i = ground arith

mark_days-covers :
    (r : ScheduledCost) (m : Minutes) (ds : List ℕ) (i : ℕ)
    → mark_days r m ds i ≡ (any (λ d. covers r d i) ds || m i)
unfolding mark_days
mark_days-covers r m [] i = refl
mark_days-covers r m (d ∷ ds) i =
    ground (arith, mark_days-covers r (mark_day r m d) ds i, mark_day-covers r m d i)

covers-day :
    (r : ScheduledCost) (d w minute : ℕ)
    → r.start_minute ≤ 1439
    → r.end_minute ≤ 1439
    → 1 ≤ d
    → d ≤ 7
    → 1 ≤ w
    → w ≤ 7
    → minute < 1440
    → covers r d ((w - 1) * 1440 + minute) ≡ day_matches r w minute d
unfolding covers mark_day mark day_matches
covers-day r d w minute s e d₁ d₇ w₁ w₇ m = ground arith

abbrev is_weekday : ℕ → Bool
is_weekday d = leb 1 d && leb d 7

-- `matches_local_time` on some of the rule's days.
abbrev matches_on : ScheduledCost → List ℕ → ℕ → ℕ → Bool
matches_on r ds w minute =
    if r.start_minute == r.end_minute
    then includes ds w
    else if ltb r.start_minute r.end_minute
    then includes ds w && leb r.start_minute minute && ltb minute r.end_minute
    else (includes ds w && leb r.start_minute minute)
      || (includes ds (if w == 1 then 7 else w - 1) && ltb minute r.end_minute)

matches_on-cons :
    (r : ScheduledCost) (d : ℕ) (ds : List ℕ) (w minute : ℕ)
    → (day_matches r w minute d || matches_on r ds w minute) ≡ matches_on r (d ∷ ds) w minute
unfolding day_matches
matches_on-cons r d ds w minute = ground arith

matches_on-nil : (r : ScheduledCost) (w minute : ℕ) → false ≡ matches_on r [] w minute
matches_on-nil r w minute = ground arith

module _ (r : ScheduledCost) (w minute : ℕ) (starts : r.start_minute ≤ 1439)
    (ends : r.end_minute ≤ 1439) (first : 1 ≤ w) (last : w ≤ 7) (within : minute < 1440) where
  any-covers :
      (ds : List ℕ)
      → every is_weekday ds ≡ true
      → any (λ d. covers r d ((w - 1) * 1440 + minute)) ds ≡ matches_on r ds w minute
  any-covers [] h = matches_on-nil r w minute
  any-covers (d ∷ ds) h =
      let here : covers r d ((w - 1) * 1440 + minute) ≡ day_matches r w minute d =
        covers-day r d w minute starts ends (ground arith) (ground arith) first last within in
      let rest = any-covers ds (ground arith) in rw (here, rest) (matches_on-cons r d ds w minute)

record Bounded (r : ScheduledCost) : Type 0 where
  starts : r.start_minute ≤ 1439
  ends : r.end_minute ≤ 1439
  days : every is_weekday r.days_of_week ≡ true

is_valid-Bounded :
    (is_amount : String → Bool) (r : ScheduledCost) → is_valid is_amount r ≡ true → Bounded r
unfolding is_valid
is_valid-Bounded is_amount r h = record {
  starts = ground arith;
  ends = ground arith;
  days = ground arith;
}

-- For a rule that is valid, a weekday from 1 to 7 and a minute of the day, the array of the minutes of
-- the week has at that weekday's minute what the test of a local time says: also for a rule that runs
-- past midnight, and from Sunday into Monday.
pub weekly_minutes-matches :
    (is_amount : String → Bool) (r : ScheduledCost) (w minute : ℕ)
    → is_valid is_amount r ≡ true
    → 1 ≤ w
    → w ≤ 7
    → minute < 1440
    → weekly_minutes r ((w - 1) * 1440 + minute) ≡ matches_local_time r w minute
unfolding weekly_minutes matches_local_time
weekly_minutes-matches is_amount r w minute valid first last within =
    let b = is_valid-Bounded is_amount r valid in
    let marked = mark_days-covers r (λ i. false) r.days_of_week ((w - 1) * 1440 + minute) in
    let meant = any-covers r w minute b.starts b.ends first last within r.days_of_week b.days in
    ground (arith, marked, meant)

some_below-true : (n i : ℕ) (f : ℕ → Bool) → i < n → f i ≡ true → some_below n f ≡ true
unfolding some_below
some_below-true zero i f h k = absurd (omega arith)
some_below-true (suc n) i f h k = elim (Bool-cases (i == n)) [
  | inl e ↦ (let same : i ≡ n = ground arith in rw (← same, k) refl)
  | inr e ↦ (let rest = some_below-true n i f (ground arith) k in ground (arith, rest))
]

-- A time at which both rules hold lies before the end of neither, so neither ends before the other.
meet-in_time :
    (l r : ScheduledCost) (at w minute : ℕ)
    → applies l at w minute ≡ true
    → applies r at w minute ≡ true
    → (ends_before l r || ends_before r l) ≡ false
unfolding applies
meet-in_time l r at w minute hl hr = ground arith

applies-enabled :
    (r : ScheduledCost) (at w minute : ℕ)
    → applies r at w minute ≡ true
    → (r.enabled ≡ true) × (matches_local_time r w minute ≡ true)
unfolding applies
applies-enabled r at w minute h = (ground arith, ground arith)

-- The early returns, passed.
tests-apart :
    (vl vr el er t m : Bool)
    → (if not vl || not vr
        then none
        else if not el || not er
        then some false
        else if t
        then some false
        else some m)
      ≡ some false
    → el ≡ true
    → er ≡ true
    → t ≡ false
    → (vl ≡ true) × (vr ≡ true) × (m ≡ false)
tests-apart vl vr el er t m h el₁ er₁ t₁ = (ground arith, ground arith, ground arith)

overlap-cases :
    (is_amount : String → Bool) (l r : ScheduledCost)
    → cost_rules_overlap is_amount l r ≡ some false
    → l.enabled ≡ true
    → r.enabled ≡ true
    → (ends_before l r || ends_before r l) ≡ false
    → (is_valid is_amount l ≡ true)
      × (is_valid is_amount r ≡ true)
      × (some_below 10080 (λ i. weekly_minutes l i && weekly_minutes r i) ≡ false)
unfolding cost_rules_overlap
overlap-cases is_amount l r h el er t =
    tests-apart _ _ l.enabled r.enabled (ends_before l r || ends_before r l) _ h el er t

true_ne_false : true ≡ false → ⊥
true_ne_false h = cc

-- Two rules that `costRulesOverlap` accepts as apart never apply at the same time: whatever the time,
-- and whichever weekday from 1 to 7 and minute of the day it is there.
pub apart-apply_never :
    (is_amount : String → Bool) (l r : ScheduledCost) (at w minute : ℕ)
    → cost_rules_overlap is_amount l r ≡ some false
    → 1 ≤ w
    → w ≤ 7
    → minute < 1440
    → (applies l at w minute && applies r at w minute) ≡ false
apart-apply_never is_amount l r at w minute apart first last within =
    elim (Bool-cases (applies l at w minute)) [
      | inr e ↦ rw e refl
      | inl hl ↦ (elim (Bool-cases (applies r at w minute)) [
        | inr e ↦ rw (hl, e) refl
        | inl hr ↦ absurd (clash hl hr)
      ])
    ]
  where
    clash : applies l at w minute ≡ true → applies r at w minute ≡ true → ⊥
    clash hl hr =
        let l₁ = applies-enabled l at w minute hl in
        let r₁ = applies-enabled r at w minute hr in
        let c = overlap-cases is_amount l r apart l₁.0 r₁.0 (meet-in_time l r at w minute hl hr) in
        let i : ℕ = (w - 1) * 1440 + minute in
        let ml = weekly_minutes-matches is_amount l w minute c.0 first last within ∙ l₁.1 in
        let mr = weekly_minutes-matches is_amount r w minute c.1 first last within ∙ r₁.1 in
        let met =
          some_below-true 10080 i (λ j. weekly_minutes l j && weekly_minutes r j) (omega arith)
            (rw (ml, mr) refl) in
        true_ne_false (sym met ∙ c.2)
