-- ===== src/Gateway/Routing.antt =====
-- packages/gateway-core/src/routing.ts: the choice of a channel and of a key. Identifiers and times are
-- numbers; a random number is a number of billionths, so that the draw is on exact numbers. Weights are
-- not negative, as the catalogue requires.
pub mod Choice
pub mod RoundRobin
mod Examples
use ucli_server.Base.{
  ℕ, zero, suc, ◌+◌, ◌-◌, ◌*◌, ◌%◌, Bool, true, false, ◌&&◌, ◌||◌, not, Option, none, some, List,
  [], ◌∷◌, ltb, leb, ◌==◌, if◌then◌else◌, or_else, min, max,
}
use ucli_server.Base.Table.{total}
use ucli_server.Base.Lists.{length, get_elem?, filter}
use ucli_server.Base.Sorting.{sort_by}
use ucli_server.Base.Int.{ℤ, pos, ltb_ℤ, pos_part, neg_part}

pub record ChannelCandidate : Type 0 where
  pub id : ℕ
  pub priority : ℤ
  pub weight : ℕ
  pub healthy : Bool

pub record KeyCandidate : Type 0 where
  pub id : ℕ
  pub enabled : Bool
  pub healthy : Bool
  pub remaining_usd : Option ℤ
  pub weight : ℕ
  pub priority : Option ℤ
  pub expires_at : Option ℕ
  pub isolated_until : Option ℕ

abbrev pub same_ℤ : ℤ → ℤ → Bool
same_ℤ a b = not (ltb_ℤ a b) && not (ltb_ℤ b a)

module _ {A : Type 0} where
  -- The loop of `weighted`, on a cursor in billionths.
  unfoldable pub draw : (A → ℕ) → List A → ℕ → Option A
  draw weight [] cursor = none
  draw weight (x ∷ xs) cursor =
      let rest = draw weight xs (cursor - max 1 (weight x) * 1000000000) in
      if ltb cursor (max 1 (weight x) * 1000000000) then some x else rest

  unfoldable pub last_item : List A → Option A
  last_item [] = none
  last_item (x ∷ xs) = some (or_else (last_item xs) x)

  unfoldable pub weighted : (A → ℕ) → List A → ℕ → Option A
  unfolding draw last_item
  weighted weight items random =
      elim (draw weight items (min 999999999 random * total (λ x. max 1 (weight x)) items)) [
        | some x ↦ some x
        | none ↦ last_item items
      ]

  -- `Math.max` of the priorities, from the first one on.
  unfoldable pub max_priority : (A → ℤ) → ℤ → List A → ℤ
  max_priority priority m [] = m
  max_priority priority m (x ∷ xs) =
      max_priority priority (if ltb_ℤ m (priority x) then priority x else m) xs

  -- The available items of the highest priority.
  unfoldable pub eligible : (A → ℤ) → List A → List A
  unfolding max_priority
  eligible priority [] = []
  eligible priority (x ∷ xs) =
      filter (λ y. same_ℤ (priority y) (max_priority priority (priority x) xs)) (x ∷ xs)

-- `selectChannel`.
unfoldable pub select_channel : List ChannelCandidate → ℕ → Option ChannelCandidate
unfolding eligible weighted
select_channel channels random =
    weighted (λ c. c.weight) (eligible (λ c. c.priority) (filter (λ c. c.healthy) channels)) random

abbrev pub key_priority : KeyCandidate → ℤ
key_priority k = or_else k.priority (pos 0)

-- The filter of `selectKey` and `selectKeyRoundRobin`.
unfoldable pub is_available : ℕ → KeyCandidate → Bool
is_available now k =
    k.enabled
    && k.healthy
    && (elim k.remaining_usd [ none ↦ true | some v ↦ ltb_ℤ (pos 0) v ])
    && (elim k.expires_at [ none ↦ true | some t ↦ ltb now t ])
    && (elim k.isolated_until [ none ↦ true | some t ↦ leb t now ])

-- `selectKey`.
unfoldable pub select_key : List KeyCandidate → ℕ → ℕ → Option KeyCandidate
unfolding is_available eligible weighted
select_key keys random now =
    weighted (λ k. k.weight) (eligible key_priority (filter (is_available now) keys)) random

-- `selectKeyRoundRobin`, where `before` is the order of identifiers and the cursor is an integer.
unfoldable pub select_key_round_robin :
    (ℕ → ℕ → Bool) → List KeyCandidate → ℤ → ℕ → Option KeyCandidate
unfolding is_available eligible sort_by
select_key_round_robin before keys cursor now =
    let items =
      sort_by (λ l r. before l.id r.id) (eligible key_priority (filter (is_available now) keys)) in
    get_elem? items ((pos_part cursor + neg_part cursor) % length items)
