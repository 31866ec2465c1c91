-- ===== src/Gateway/Routing/Choice.antt =====
-- The chosen candidates of packages/gateway-core/src/routing.ts.
use mathlib.Core.List.{Memᴰ}
use mathlib.Core.List.Memᴰ.{not-nil, cases_cons}
use ucli_server.Base.{
  ℕ, ◌-◌, ◌*◌, ◌≡◌, refl, subst, ◌∙◌, ◌⊎◌, inl, inr, Bool, true, false, Option, none, some, List,
  [], ◌∷◌, ltb, if◌then◌else◌, arith, Bool-cases, Option-cases, if_both, min, max,
}
use ucli_server.Base.Table.{total}
use ucli_server.Base.Lists.{filter}
use ucli_server.Base.Int.{ℤ, ◌≤ℤ◌, ltb_ℤ}
use ucli_server.Gateway.Routing.{
  ChannelCandidate, KeyCandidate, same_ℤ, draw, last_item, weighted, max_priority, eligible,
  select_channel, key_priority, is_available, select_key,
}

same-le : (a b c : ℤ) → same_ℤ a b ≡ true → c ≤ℤ b → c ≤ℤ a
same-le a b c h k = ground arith

same_self : (a : ℤ) → same_ℤ a a ≡ true
same_self a = ground arith

module _ {A : Type 0} where
  none_ne_some : {a : A} → none ≡ some a → ⊥
  none_ne_some h = cc

  some_inj : {a b : A} → some a ≡ some b → b ≡ a
  some_inj h = cc

  draw-Mem :
      (weight : A → ℕ) (xs : List A) (cursor : ℕ) (a : A)
      → draw weight xs cursor ≡ some a
      → Memᴰ a xs
  unfolding draw
  draw-Mem weight [] cursor a h = absurd (none_ne_some h)
  draw-Mem weight (x ∷ xs) cursor a h =
      elim (Bool-cases (ltb cursor (max 1 (weight x) * 1000000000))) [
        | inl e ↦ Memᴰ.head (ground arith)
        | inr e ↦
            Memᴰ.tail (draw-Mem weight xs (cursor - max 1 (weight x) * 1000000000) a (ground arith))
      ]

  last_item-Mem : (xs : List A) (a : A) → last_item xs ≡ some a → Memᴰ a xs
  unfolding last_item
  last_item-Mem [] a h = absurd (none_ne_some h)
  last_item-Mem (x ∷ xs) a h = elim (Option-cases (last_item xs)) [
    | inl e ↦ Memᴰ.head (ground arith)
    | inr (b, e) ↦ Memᴰ.tail (last_item-Mem xs a (ground arith))
  ]

  weighted-Mem :
      (weight : A → ℕ) (xs : List A) (random : ℕ) (a : A)
      → weighted weight xs random ≡ some a
      → Memᴰ a xs
  unfolding weighted
  weighted-Mem weight xs random a h =
      let cursor : ℕ = min 999999999 random * total (λ x. max 1 (weight x)) xs in
      elim (Option-cases (draw weight xs cursor)) [
        | inl e ↦ last_item-Mem xs a (ground arith)
        | inr (b, e) ↦ draw-Mem weight xs cursor a (ground arith)
      ]

  filter-Mem :
      (p : A → Bool) (xs : List A) (a : A) → Memᴰ a (filter p xs) → Memᴰ a xs × (p a ≡ true)
  filter-Mem p [] a h = absurd (not-nil h)
  filter-Mem p (x ∷ xs) a h = elim (Bool-cases (p x)) [
    | inl e ↦ (elim (cases_cons (subst (Memᴰ a) (rw e refl) h)) [
      | inl same ↦ (Memᴰ.head same, rw same e)
      | inr m ↦ (let r = filter-Mem p xs a m in (Memᴰ.tail r.0, r.1))
    ])
    | inr e ↦ (let r = filter-Mem p xs a (subst (Memᴰ a) (rw e refl) h) in (Memᴰ.tail r.0, r.1))
  ]

  Mem-filter : (p : A → Bool) (xs : List A) (a : A) → Memᴰ a xs → p a ≡ true → Memᴰ a (filter p xs)
  Mem-filter p [] a m h = absurd (not-nil m)
  Mem-filter p (x ∷ xs) a (Memᴰ.head same) h =
      subst (λ y. Memᴰ a (if p y then x ∷ filter p xs else filter p xs)) same
        (rw h (Memᴰ.head same))
  Mem-filter p (x ∷ xs) a (Memᴰ.tail m) h =
      if_both (Memᴰ a) (p x) (Memᴰ.tail (Mem-filter p xs a m h)) (Mem-filter p xs a m h)

  max_priority-least : (p : A → ℤ) (m : ℤ) (xs : List A) → m ≤ℤ max_priority p m xs
  unfolding max_priority
  max_priority-least p m [] = ground arith
  max_priority-least p m (x ∷ xs) =
      let rest = max_priority-least p (if ltb_ℤ m (p x) then p x else m) xs in ground arith

  max_priority-bounds :
      (p : A → ℤ) (m : ℤ) (xs : List A) (b : A) → Memᴰ b xs → p b ≤ℤ max_priority p m xs
  unfolding max_priority
  max_priority-bounds p m [] b h = absurd (not-nil h)
  max_priority-bounds p m (x ∷ xs) b (Memᴰ.head same) =
      let rest = max_priority-least p (if ltb_ℤ m (p x) then p x else m) xs in
      rw same (ground arith)
  max_priority-bounds p m (x ∷ xs) b (Memᴰ.tail h) =
      max_priority-bounds p (if ltb_ℤ m (p x) then p x else m) xs b h

  -- The maximum is the first value or the priority of an item.
  max_priority-attained :
      (p : A → ℤ) (m : ℤ) (xs : List A)
      → (max_priority p m xs ≡ m) ⊎ ((a : A) × Memᴰ a xs × (max_priority p m xs ≡ p a))
  unfolding max_priority
  max_priority-attained p m [] = inl refl
  max_priority-attained p m (x ∷ xs) =
      elim (max_priority-attained p (if ltb_ℤ m (p x) then p x else m) xs) [
        | inr (a, h, e) ↦ inr (a, Memᴰ.tail h, e)
        | inl e ↦ (elim (Bool-cases (ltb_ℤ m (p x))) [
          | inl t ↦ inr (x, Memᴰ.head refl, e ∙ rw t refl)
          | inr f ↦ inl (e ∙ rw f refl)
        ])
      ]

  -- What is left are items, and none of the others is before them.
  eligible-best :
      (p : A → ℤ) (xs : List A) (a : A)
      → Memᴰ a (eligible p xs)
      → Memᴰ a xs × ((b : A) → Memᴰ b xs → p b ≤ℤ p a)
  unfolding eligible
  eligible-best p [] a h = absurd (not-nil h)
  eligible-best p (x ∷ xs) a h =
      let top : ℤ = max_priority p (p x) xs in
      let r = filter-Mem (λ y. same_ℤ (p y) top) (x ∷ xs) a h in
      (
        r.0,
        λ b m. same-le (p a) top (p b) r.1 (elim (cases_cons m) [
          | inl same ↦ rw same (max_priority-least p (p x) xs)
          | inr rest ↦ max_priority-bounds p (p x) xs b rest
        ]),
      )

  eligible-Mem : (p : A → ℤ) (x : A) (xs : List A) → (a : A) × Memᴰ a (eligible p (x ∷ xs))
  unfolding eligible
  eligible-Mem p x xs =
      let top : ℤ = max_priority p (p x) xs in
      let test : A → Bool = λ y. same_ℤ (p y) top in
      elim (max_priority-attained p (p x) xs) [
        | inl e ↦ (x, Mem-filter test (x ∷ xs) x (Memᴰ.head refl) (rw e (same_self (p x))))
        | inr (a, m, e) ↦ (a, Mem-filter test (x ∷ xs) a (Memᴰ.tail m) (rw e (same_self (p a))))
      ]

  eligible-exists : (p : A → ℤ) (xs : List A) (b : A) → Memᴰ b xs → (a : A) × Memᴰ a (eligible p xs)
  eligible-exists p [] b m = absurd (not-nil m)
  eligible-exists p (x ∷ xs) b m = eligible-Mem p x xs

  weighted-none :
      (weight : A → ℕ) (x : A) (xs : List A) (random : ℕ)
      → weighted weight (x ∷ xs) random ≡ none
      → ⊥
  unfolding weighted last_item
  weighted-none weight x xs random h =
      let cursor : ℕ = min 999999999 random * total (λ y. max 1 (weight y)) (x ∷ xs) in
      elim (Option-cases (draw weight (x ∷ xs) cursor)) [
        | inl e ↦ ground arith
        | inr (a, e) ↦ ground arith
      ]

  weighted-total :
      (weight : A → ℕ) (xs : List A) (random : ℕ) (a : A)
      → Memᴰ a xs
      → weighted weight xs random ≡ none
      → ⊥
  weighted-total weight [] random a m h = not-nil m
  weighted-total weight (x ∷ xs) random a m h = weighted-none weight x xs random h

-- The answer of a choice: an item that is available with none available before it, or `none` where no
-- item is available.
pub data IsBest {A : Type 0} (available : A → Bool) (p : A → ℤ) (xs : List A)
    : Option A → Type 0 where
  best :
      (a : A)
      → Memᴰ a xs
      → available a ≡ true
      → ((b : A) → Memᴰ b xs → available b ≡ true → p b ≤ℤ p a)
      → IsBest available p xs (some a)
  nothing : ((b : A) → Memᴰ b xs → available b ≡ false) → IsBest available p xs none

module _ {A : Type 0} (available : A → Bool) (p : A → ℤ) (xs : List A) where
  best-IsBest : (a : A) → Memᴰ a (eligible p (filter available xs)) → IsBest available p xs (some a)
  best-IsBest a m =
      let e = eligible-best p (filter available xs) a m in
      let f = filter-Mem available xs a e.0 in
      IsBest.best a f.0 f.1 (λ b n t. e.1 b (Mem-filter available xs b n t))

  -- What the loop chooses among the eligible ones.
  pub choice-IsBest :
      (o : Option A)
      → ((a : A) → o ≡ some a → Memᴰ a (eligible p (filter available xs)))
      → ((a : A) → Memᴰ a (eligible p (filter available xs)) → o ≡ none → ⊥)
      → IsBest available p xs o
  choice-IsBest (some a) chosen some_chosen = best-IsBest a (chosen a refl)
  choice-IsBest none chosen some_chosen = IsBest.nothing λ b m. elim (Bool-cases (available b)) [
    | inr e ↦ e
    | inl e ↦
        (let a = eligible-exists p (filter available xs) b (Mem-filter available xs b m e) in
          absurd (some_chosen a.0 a.1 refl))
  ]

  weighted-IsBest :
      (weight : A → ℕ) (random : ℕ)
      → IsBest available p xs (weighted weight (eligible p (filter available xs)) random)
  weighted-IsBest weight random =
      choice-IsBest _ (weighted-Mem weight _ random) (weighted-total weight _ random)

-- Whatever is drawn, `selectChannel` chooses a channel of the list that is healthy, with no healthy
-- channel of a higher priority, and it answers `null` only where no channel is healthy.
pub select_channel-IsBest :
    (channels : List ChannelCandidate) (random : ℕ)
    → IsBest (λ c. c.healthy) (λ c. c.priority) channels (select_channel channels random)
unfolding select_channel
select_channel-IsBest channels random = weighted-IsBest _ _ channels _ random

-- Whatever is drawn, `selectKey` chooses a key of the list that is available at the time, with no
-- available key of a higher priority, and it answers `null` only where no key is available.
pub select_key-IsBest :
    (keys : List KeyCandidate) (random now : ℕ)
    → IsBest (is_available now) key_priority keys (select_key keys random now)
unfolding select_key
select_key-IsBest keys random now = weighted-IsBest _ _ keys _ random
