-- ===== src/Gateway/Schedule/Progress.antt =====
-- The search of `nextCostTransition` in packages/gateway-core/src/cost-schedule.ts: it ends, and what it
-- finds is a change.
use ucli_server.Base.{
  ℕ, zero, suc, ◌+◌, ◌-◌, ◌≤◌, ◌<◌, ◌≡◌, inl, inr, Bool, false, Option, some, List, [], ◌∷◌, String,
  ltb, leb, ◌==◌, arith, Bool-cases, elim_Bool, elim_Option, ◌&&◌, if_both, not, subst, ◌≢◌,
}
use ucli_server.Base.Lists.{length, filter, any}
use ucli_server.Base.Table.{find?, find?-passes, All}
use ucli_server.Gateway.Schedule.{ScheduledCost}
use ucli_server.Gateway.Schedule.Resolve.{
  ResolvedCost, FallbackCost, Platform, resolve_prepared, sort_rules, inputs_are_valid,
}
use ucli_server.Gateway.Schedule.Transition.{
  CostTransition, Search, Scan, Costs, same_effective_cost, minutes_from, add_value, add_boundaries,
  transition_candidates, scan, search_horizons, search_from, search_rules, next_cost_transition,
  type_error, null, out_of_fuel, found, threw, unchanged, changed, week_in_milliseconds,
  minute_in_milliseconds, future_boundaries, covers_week, some_valid_now, validity_times,
}
use ucli_server.Base.Sorting.{All-sort_by}

-- How many boundaries lie after a horizon.
abbrev remaining : ℕ → List ℕ → ℕ
remaining horizon bs = length (filter (ltb horizon) bs)

remaining-le : (h k : ℕ) (bs : List ℕ) → h ≤ k → remaining k bs ≤ remaining h bs
remaining-le h k [] le = ground arith
remaining-le h k (b ∷ bs) le = ground (arith, remaining-le h k bs le)

remaining-lt :
    (h k b : ℕ) (bs : List ℕ) → find? (ltb h) bs ≡ some b → b ≤ k → remaining k bs < remaining h bs
remaining-lt h k b [] e le = absurd (cc)
remaining-lt h k b (x ∷ bs) e le = elim (Bool-cases (ltb h x)) [
  | inl t ↦
      let same : x ≡ b = ground arith in
      let rest = remaining-le h k bs (ground arith) in ground arith
  | inr t ↦
      let later : find? (ltb h) bs ≡ some b = ground arith in
      let past = find?-passes (ltb h) bs b later in
      let rest = remaining-lt h k b bs later le in ground arith
]

remaining-length : (h : ℕ) (bs : List ℕ) → remaining h bs ≤ length bs
remaining-length h [] = ground arith
remaining-length h (b ∷ bs) = ground (arith, remaining-length h bs)

-- The cost is another one than at some time from `start` on that is earlier.
pub record IsChange (costs : Costs) (start : ℕ) (t : CostTransition) : Type 0 where
  pub before : ℕ
  pub was : Option ResolvedCost
  pub from_start : start ≤ before
  pub earlier : before < t.at
  pub cost_before : costs before ≡ some was
  pub cost_then : costs t.at ≡ some t.cost
  pub differs : same_effective_cost was t.cost ≡ false

-- A search that ended, and whose answer is a change.
abbrev pub Answers : Costs → ℕ → Search → Type 0
Answers costs start type_error = Unit
Answers costs start null = Unit
Answers costs start out_of_fuel = ⊥
Answers costs start (found t) = IsChange costs start t

abbrev Scanned : Costs → ℕ → Scan → Type 0
Scanned costs start threw = Unit
Scanned costs start unchanged = Unit
Scanned costs start (changed t) = IsChange costs start t

-- Times in ascending order, after `u`.
abbrev Above : ℕ → List ℕ → Type 0
Above u [] = Unit
Above u (x ∷ xs) = (u < x) × Above x xs

minutes_from-Above : (n u value : ℕ) → u < value → Above u (minutes_from n value)
unfolding minutes_from
minutes_from-Above zero u value h = tt
minutes_from-Above (suc n) u value h =
    (h, minutes_from-Above n value (value + minute_in_milliseconds) (omega arith))

add_value-Above : (b u : ℕ) (xs : List ℕ) → u < b → Above u xs → Above u (add_value b xs)
unfolding add_value
add_value-Above b u [] h k = (h, tt)
add_value-Above b u (x ∷ xs) h k = elim (Bool-cases (b == x)) [
  | inl e ↦ rw e k
  | inr e ↦ (elim (Bool-cases (ltb b x)) [
    | inl l ↦ rw (e, l) (h, (ground arith, k.1))
    | inr l ↦ rw (e, l) (k.0, add_value-Above b x xs (ground arith) k.1)
  ])
]

add_boundaries-Above :
    (from until : ℕ) (bs values : List ℕ)
    → Above from values
    → Above from (add_boundaries from until bs values)
unfolding add_boundaries
add_boundaries-Above from until [] values h = h
add_boundaries-Above from until (b ∷ bs) values h =
    let rest = add_boundaries-Above from until bs values h in
    elim (Bool-cases (ltb from b && leb b until)) [
      | inl e ↦
          rw e (add_value-Above b from (add_boundaries from until bs values) (ground arith) rest)
      | inr e ↦ rw e rest
    ]

transition_candidates-Above :
    (from until : ℕ) (bs : List ℕ) → Above from (transition_candidates from until bs)
unfolding transition_candidates
transition_candidates-Above from until bs =
    add_boundaries-Above from until bs _ (minutes_from-Above _ from _ (omega arith))

elim_Scan :
    {costs : Costs} {start : ℕ} (P : Search → Type 0) (s : Scan) {x y : Search}
    {f : CostTransition → Search}
    → Scanned costs start s
    → P x
    → ((t : CostTransition) → IsChange costs start t → P (f t))
    → P y
    → P (elim s [ threw ↦ x | changed t ↦ f t | unchanged ↦ y ])
elim_Scan P threw r h k l = h
elim_Scan P (changed t) r h k l = k t r
elim_Scan P unchanged r h k l = l

module _ (costs : Costs) (start : ℕ) where
  scan-Scanned :
      (current : Option ResolvedCost) (u : ℕ) (xs : List ℕ)
      → start ≤ u
      → costs u ≡ some current
      → Above u xs
      → Scanned costs start (scan costs current xs)
  unfolding scan
  scan-Scanned current u [] h k a = tt
  scan-Scanned current u (x ∷ xs) h k a =
      elim_Option (Scanned costs start) (costs x) (λ e. tt)
        λ next e.
          elim_Bool (Scanned costs start) (same_effective_cost current next)
            (λ d. scan-Scanned next x xs (omega (arith, h, a.0)) e a.1)
            λ d. record {
              before = u;
              was = current;
              from_start = h;
              earlier = a.0;
              cost_before = k;
              cost_then = e;
              differs = d;
            }

  search_horizons-Answers :
      (fuel : ℕ) (bs : List ℕ) (cursor : ℕ) (current : Option ResolvedCost) (horizon : ℕ)
      → remaining horizon bs < fuel
      → start ≤ cursor
      → start ≤ horizon
      → costs cursor ≡ some current
      → Answers costs start (search_horizons fuel costs bs cursor current horizon)
  unfolding search_horizons
  search_horizons-Answers zero bs cursor current horizon f h l k = absurd (omega arith)
  search_horizons-Answers (suc fuel) bs cursor current horizon f h l k =
      elim_Scan (Answers costs start) _
        (scan-Scanned current cursor (transition_candidates cursor horizon bs) h k
          (transition_candidates-Above cursor horizon bs))
        tt (λ t r. r)
        (elim_Option (Answers costs start) (find? (ltb horizon) bs) (λ e. tt)
          λ b e.
            elim_Option (Answers costs start) (costs (b - 1)) (λ g. tt)
              λ cost g.
                let past = find?-passes (ltb horizon) bs b e in
                let fewer = remaining-lt horizon (b + week_in_milliseconds) b bs e (omega arith) in
                search_horizons-Answers fuel bs (b - 1) cost (b + week_in_milliseconds)
                  (omega (arith, fewer, f)) (ground arith) (ground arith) g)

  search_from-Answers :
      (bs : List ℕ) (valid_now : Bool) (current : Option ResolvedCost)
      → All (λ b. start < b) bs
      → costs start ≡ some current
      → Answers costs start (search_from (suc (length bs)) costs bs valid_now start current)
  unfolding search_from
  search_from-Answers [] valid_now current a k =
      search_horizons-Answers 1 [] start current (start + week_in_milliseconds) (ground arith)
        (ground arith) (ground arith) k
  search_from-Answers (b ∷ bs) valid_now current a k =
      if_both (Answers costs start) valid_now
        (search_horizons-Answers (suc (length (b ∷ bs))) (b ∷ bs) start current
          (start + week_in_milliseconds)
          (omega (arith, remaining-length (start + week_in_milliseconds) (b ∷ bs))) (ground arith)
          (ground arith) k)
        (elim_Option (Answers costs start) (costs (b - 1)) (λ e. tt)
          λ cost e.
            search_horizons-Answers (suc (length (b ∷ bs))) (b ∷ bs) (b - 1) cost
              (b + week_in_milliseconds)
              (omega (arith, remaining-length (b + week_in_milliseconds) (b ∷ bs)))
              (omega (arith, a.0)) (omega (arith, a.0)) e)

  search_rules-Answers :
      (rules : List ScheduledCost) (bs : List ℕ) (current : Option ResolvedCost)
      → All (λ b. start < b) bs
      → costs start ≡ some current
      → Answers costs start (search_rules (suc (length bs)) costs rules bs start current)
  unfolding search_rules
  search_rules-Answers rules bs current a k =
      if_both (Answers costs start) (not (any (λ r. r.enabled) rules)) tt (
        if_both (Answers costs start) ((length bs == 0) && covers_week rules) tt
          (search_from-Answers bs (some_valid_now start rules) current a k))

All-filter : (at : ℕ) (bs : List ℕ) → All (λ b. at < b) (filter (ltb at) bs)
All-filter at [] = tt
All-filter at (b ∷ bs) = elim (Bool-cases (ltb at b)) [
  | inl e ↦ rw (e, filter) (ground arith, All-filter at bs)
  | inr e ↦ rw (e, filter) (All-filter at bs)
]

future_boundaries-All :
    (at : ℕ) (rules : List ScheduledCost) → All (λ b. at < b) (future_boundaries at rules)
unfolding future_boundaries
future_boundaries-All at rules =
    All-sort_by ltb (λ b. at < b) (filter (ltb at) (validity_times rules))
      (All-filter at (validity_times rules))

-- The resolutions that `nextCostTransition` compares.
abbrev pub costs_of : Platform → List ScheduledCost → Option FallbackCost → String → Costs
costs_of p rules fallback zone =
    λ time. resolve_prepared p.format (sort_rules p rules) fallback time zone

next-Answers :
    (p : Platform) (rules : List ScheduledCost) (fallback : Option FallbackCost) (at : ℕ)
    (zone : String)
    → Answers (costs_of p rules fallback zone) at (next_cost_transition p rules fallback at zone)
unfolding next_cost_transition
next-Answers p rules fallback at zone =
    let costs = costs_of p rules fallback zone in
    if_both (Answers costs at) (inputs_are_valid p rules fallback zone)
      (elim_Option (Answers costs at) (costs at) (λ e. tt)
        λ current e.
          search_rules-Answers costs at rules (future_boundaries at rules) current
            (future_boundaries-All at rules) e)
      tt

-- The search for the next change of the cost ends: with as many horizons as there are starts and ends
-- of validity still to come, and one more, it always has an answer.
pub next_cost_transition-ends :
    (p : Platform) (rules : List ScheduledCost) (fallback : Option FallbackCost) (at : ℕ)
    (zone : String)
    → next_cost_transition p rules fallback at zone ≢ out_of_fuel
next_cost_transition-ends p rules fallback at zone e =
    subst (Answers (costs_of p rules fallback zone) at) e (next-Answers p rules fallback at zone)

-- A change of the cost that the search finds is one: at its time the cost is the one that a resolution
-- gives there, and at some earlier time, not before the time that was asked for, a resolution gives a
-- cost of another identifier or source.
pub next_cost_transition-IsChange :
    (p : Platform) (rules : List ScheduledCost) (fallback : Option FallbackCost) (at : ℕ)
    (zone : String) (t : CostTransition)
    → next_cost_transition p rules fallback at zone ≡ found t
    → IsChange (costs_of p rules fallback zone) at t
next_cost_transition-IsChange p rules fallback at zone t e =
    subst (Answers (costs_of p rules fallback zone) at) e (next-Answers p rules fallback at zone)
