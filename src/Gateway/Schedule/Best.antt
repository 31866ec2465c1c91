-- ===== src/Gateway/Schedule/Best.antt =====
-- Which rule `resolveChannelCost` of packages/gateway-core/src/cost-schedule.ts takes.
use mathlib.Core.List.{Memᴰ}
use ucli_server.Base.{
  ℕ, ◌+◌, ◌≡◌, refl, inl, inr, Bool, true, false, Option, none, some, List, [], ◌∷◌, String, ltb,
  arith, Bool-cases, subst,
}
use ucli_server.Base.Int.{ltb_ℤ, pos_part, neg_part}
use ucli_server.Base.Lists.{every}
use ucli_server.Base.Sorting.{IsOrder, find?-sort_by, find?-sort_by-none, All-sort_by}
use ucli_server.Base.Table.{All, find?-passes, All-find?}
use ucli_server.Gateway.Schedule.{ScheduledCost, applies, is_valid}
use ucli_server.Gateway.Schedule.Resolve.{
  LocalTime, ResolvedCost, Platform, then_by, comes_before, rule_cost, local_time, rule_at,
  resolve_validated, resolve_channel_cost, sort_rules,
}

-- The tests of two steps, as one order.
then_by_asym :
    (lt gt l r : Bool)
    → (lt ≡ true → gt ≡ false)
    → (l ≡ true → r ≡ false)
    → then_by lt gt l ≡ true
    → then_by gt lt r ≡ false
then_by_asym lt gt l r h k e = ground arith

-- Three items compared by a number each: `lt` is the first step of one pair.
then_by_ties :
    (a b c : ℕ) (xy yz xz : Bool)
    → (xy ≡ false → yz ≡ false → xz ≡ false)
    → then_by (ltb b a) (ltb a b) xy ≡ false
    → then_by (ltb c b) (ltb b c) yz ≡ false
    → then_by (ltb c a) (ltb a c) xz ≡ false
then_by_ties a b c xy yz xz k e f = ground arith

then_by_ties_ℤ :
    (a a₁ b b₁ c c₁ : ℕ) (xy yz xz : Bool)
    → (xy ≡ false → yz ≡ false → xz ≡ false)
    → then_by (ltb (b + a₁) (a + b₁)) (ltb (a + b₁) (b + a₁)) xy ≡ false
    → then_by (ltb (c + b₁) (b + c₁)) (ltb (b + c₁) (c + b₁)) yz ≡ false
    → then_by (ltb (c + a₁) (a + c₁)) (ltb (a + c₁) (c + a₁)) xz ≡ false
then_by_ties_ℤ a a₁ b b₁ c c₁ xy yz xz k e f = ground arith

comes_before-IsOrder :
    (id_before : ℕ → ℕ → Bool) → IsOrder id_before → IsOrder (comes_before id_before)
unfolding comes_before
comes_before-IsOrder id_before o = record {
  asym = λ x y.
      then_by_asym (ltb_ℤ y.priority x.priority) (ltb_ℤ x.priority y.priority) _ _
        (λ h. ground arith)
        (then_by_asym (ltb y.valid_from x.valid_from) (ltb x.valid_from y.valid_from) _ _
          (λ h. ground arith)
          (then_by_asym (ltb y.created_at x.created_at) (ltb x.created_at y.created_at) _ _
            (λ h. ground arith) (o.asym x.id y.id)));
  ties = λ x y z.
      then_by_ties_ℤ (pos_part x.priority) (neg_part x.priority) (pos_part y.priority)
        (neg_part y.priority) (pos_part z.priority) (neg_part z.priority) _ _ _
        (then_by_ties x.valid_from y.valid_from z.valid_from _ _ _
          (then_by_ties x.created_at y.created_at z.created_at _ _ _ (o.ties x.id y.id z.id)));
}

-- A rule of the list that applies, such that no rule that applies comes before it.
pub record IsBestRule (p : Platform) (rules : List ScheduledCost) (at : ℕ) (t : LocalTime)
    (r : ScheduledCost) : Type 0 where
  pub among : Memᴰ r rules
  pub applying : applies r at t.weekday t.minute ≡ true
  pub first :
      All (λ x. applies x at t.weekday t.minute ≡ true → comes_before p.id_before x r ≡ false) rules

All-Mem : {A : Type 0} (P : A → Type 0) (xs : List A) → ((x : A) → Memᴰ x xs → P x) → All P xs
All-Mem P [] k = tt
All-Mem P (x ∷ xs) k = (k x (Memᴰ.head refl), All-Mem P xs (λ y m. k y (Memᴰ.tail m)))

rule_at-IsBestRule :
    (p : Platform) (o : IsOrder p.id_before) (rules : List ScheduledCost) (at : ℕ) (t : LocalTime)
    (r : ScheduledCost)
    → rule_at (sort_rules p rules) at t ≡ some r
    → IsBestRule p rules at t r
unfolding rule_at sort_rules
rule_at-IsBestRule p o rules at t r h =
    let test = λ (x : ScheduledCost). applies x at t.weekday t.minute in
    let before = comes_before p.id_before in
    record {
      among =
          All-find? (λ x. Memᴰ x rules) test (sort_rules p rules) r
            (All-sort_by before (λ x. Memᴰ x rules) rules
              (All-Mem (λ x. Memᴰ x rules) rules (λ x m. m)))
            h;
      applying = find?-passes test (sort_rules p rules) r h;
      first = find?-sort_by before (comes_before-IsOrder p.id_before o) test rules r h;
    }

rule_at-none :
    (p : Platform) (rules : List ScheduledCost) (at : ℕ) (t : LocalTime)
    → rule_at (sort_rules p rules) at t ≡ none
    → All (λ x. applies x at t.weekday t.minute ≡ false) rules
unfolding rule_at sort_rules
rule_at-none p rules at t h =
    find?-sort_by-none (comes_before p.id_before) (λ x. applies x at t.weekday t.minute) rules h

-- What a resolution says of the rules: the cost is that of a best rule, or no rule applies.
abbrev pub Resolves :
    Platform → List ScheduledCost → ℕ → String → LocalTime → Option ResolvedCost → Type 0
Resolves p rules at zone t none = All (λ x. applies x at t.weekday t.minute ≡ false) rules
Resolves p rules at zone t (some c) =
    (r : ScheduledCost) × IsBestRule p rules at t r × (c ≡ rule_cost r at zone)

resolved-Resolves :
    (p : Platform) (o : IsOrder p.id_before) (rules : List ScheduledCost) (at : ℕ) (zone : String)
    (t : LocalTime) (rule : Option ScheduledCost) (found : Option ResolvedCost)
    → rule_at (sort_rules p rules) at t ≡ rule
    → (elim rule [ none ↦ some none | some r ↦ some (some (rule_cost r at zone)) ]) ≡ some found
    → Resolves p rules at zone t found
resolved-Resolves p o rules at zone t none found e h =
    let same : none ≡ found = cc in
    subst (Resolves p rules at zone t) same (rule_at-none p rules at t e)
resolved-Resolves p o rules at zone t (some r) found e h =
    let same : some (rule_cost r at zone) ≡ found = cc in
    subst (Resolves p rules at zone t) same (r, rule_at-IsBestRule p o rules at t r e, refl)

resolve_validated-Resolves :
    (p : Platform) (o : IsOrder p.id_before) (rules : List ScheduledCost) (at : ℕ) (zone : String)
    (found : Option ResolvedCost)
    → resolve_validated p.format (sort_rules p rules) at zone ≡ some found
    → (t : LocalTime) × (local_time p.format at zone ≡ some t) × Resolves p rules at zone t found
unfolding resolve_validated
resolve_validated-Resolves p o rules at zone found h = at_local_time _ refl h
  where
    at_local_time :
        (local : Option LocalTime)
        → local_time p.format at zone ≡ local
        → (elim local [
          | none ↦ none
          | some t ↦ (elim (rule_at (sort_rules p rules) at t) [
            | none ↦ some none
            | some r ↦ some (some (rule_cost r at zone))
          ])
        ])
          ≡ some found
        → (t : LocalTime) × (local_time p.format at zone ≡ some t)
          × Resolves p rules at zone t found
    at_local_time none e k = absurd (cc)
    at_local_time (some t) e k = (t, e, resolved-Resolves p o rules at zone t _ found refl k)

-- The cost that `resolveChannelCost` returns is that of a rule of the list that applies at the time and
-- at its local time, such that no rule that applies comes before it by priority, start of validity,
-- creation and identifier; without a cost, no rule applies. The order of identifiers is consistent.
pub resolve_channel_cost-Resolves :
    (p : Platform)
    → IsOrder p.id_before
    → (rules : List ScheduledCost) (at : ℕ) (zone : String) (found : Option ResolvedCost)
    → resolve_channel_cost p rules at zone ≡ some found
    → (t : LocalTime) × (local_time p.format at zone ≡ some t) × Resolves p rules at zone t found
unfolding resolve_channel_cost
resolve_channel_cost-Resolves p o rules at zone found h =
    elim (Bool-cases (every (is_valid p.is_amount) rules)) [
      | inl e ↦ resolve_validated-Resolves p o rules at zone found (ground arith)
      | inr e ↦ absurd (cc)
    ]
