-- ===== src/Gateway/Routing/RoundRobin.antt =====
-- `selectKeyRoundRobin` of packages/gateway-core/src/routing.ts.
use mathlib.Core.List.{Memᴰ}
use native.Mathlib.Nat.{mod-lt}
use mathlib.Core.List.Memᴰ.{not-nil, cases_cons}
use ucli_server.Base.{
  ℕ, zero, suc, ◌+◌, ◌%◌, ◌≤◌, ◌<◌, ◌≡◌, refl, sym, ◌⊎◌, inl, inr, Bool, none, some, List, [], ◌∷◌,
  arith, Bool-cases, subst,
}
use ucli_server.Base.Lists.{filter, get_elem?, length}
use ucli_server.Base.Sorting.{insert_by, sort_by}
use ucli_server.Base.Int.{ℤ, pos_part, neg_part}
use ucli_server.Gateway.Routing.{
  KeyCandidate, eligible, key_priority, is_available, select_key_round_robin,
}
use ucli_server.Gateway.Routing.Choice.{IsBest, choice-IsBest}

module _ {A : Type 0} (before : A → A → Bool) where
  insert_by-Mem :
      (x : A) (xs : List A) (a : A) → Memᴰ a (insert_by before x xs) → (a ≡ x) ⊎ Memᴰ a xs
  unfolding insert_by
  insert_by-Mem x [] a m = cases_cons m
  insert_by-Mem x (y ∷ ys) a m = elim (Bool-cases (before y x)) [
    | inr e ↦ cases_cons (subst (Memᴰ a) (rw e refl) m)
    | inl e ↦ (elim (cases_cons (subst (Memᴰ a) (rw e refl) m)) [
      | inl same ↦ inr (Memᴰ.head same)
      | inr rest ↦ (elim (insert_by-Mem x ys a rest) [
        | inl same ↦ inl same
        | inr n ↦ inr (Memᴰ.tail n)
      ])
    ])
  ]

  sort_by-Mem : (xs : List A) (a : A) → Memᴰ a (sort_by before xs) → Memᴰ a xs
  unfolding sort_by
  sort_by-Mem [] a m = m
  sort_by-Mem (x ∷ xs) a m = elim (insert_by-Mem x (sort_by before xs) a m) [
    | inl same ↦ Memᴰ.head same
    | inr n ↦ Memᴰ.tail (sort_by-Mem xs a n)
  ]

  length-insert_by : (x : A) (xs : List A) → length (insert_by before x xs) ≡ suc (length xs)
  unfolding insert_by
  length-insert_by x [] = refl
  length-insert_by x (y ∷ ys) =
      let rest = length-insert_by x ys in
      elim (Bool-cases (before y x)) [ inl e ↦ rw (e, rest) refl | inr e ↦ rw e refl ]

  length-sort_by : (xs : List A) → length (sort_by before xs) ≡ length xs
  unfolding sort_by
  length-sort_by [] = refl
  length-sort_by (x ∷ xs) = rw (length-insert_by x (sort_by before xs), length-sort_by xs) refl

module _ {A : Type 0} where
  get_elem?-Mem : (xs : List A) (i : ℕ) (a : A) → get_elem? xs i ≡ some a → Memᴰ a xs
  get_elem?-Mem [] i a h = absurd (cc)
  get_elem?-Mem (x ∷ xs) zero a h = Memᴰ.head (cc)
  get_elem?-Mem (x ∷ xs) (suc i) a h = Memᴰ.tail (get_elem?-Mem xs i a h)

  get_elem?-none : (xs : List A) (i : ℕ) → get_elem? xs i ≡ none → length xs ≤ i
  get_elem?-none [] i h = omega arith
  get_elem?-none (x ∷ xs) zero h = absurd (cc)
  get_elem?-none (x ∷ xs) (suc i) h = let rest = get_elem?-none xs i h in omega arith

  length-positive : (xs : List A) (a : A) → Memᴰ a xs → 0 < length xs
  length-positive [] a m = absurd (not-nil m)
  length-positive (x ∷ xs) a m = omega arith

-- Whatever the cursor and the order of identifiers, `selectKeyRoundRobin` chooses a key of the list
-- that is available at the time, with no available key of a higher priority, and it answers `null`
-- only where no key is available.
pub round_robin-IsBest :
    (before : ℕ → ℕ → Bool) (keys : List KeyCandidate) (cursor : ℤ) (now : ℕ)
    → IsBest (is_available now) key_priority keys (select_key_round_robin before keys cursor now)
unfolding select_key_round_robin
round_robin-IsBest before keys cursor now =
    let eligible_keys = eligible key_priority (filter (is_available now) keys) in
    let order : KeyCandidate → KeyCandidate → Bool = λ l r. before l.id r.id in
    let items : List KeyCandidate = sort_by order eligible_keys in
    let c : ℕ = pos_part cursor + neg_part cursor in
    choice-IsBest _ _ keys (get_elem? items (c % length items))
      (λ a h. sort_by-Mem order eligible_keys a (get_elem?-Mem items _ a h))
      λ a m missing.
        let there : 0 < length items =
          subst (λ n. 0 < n) (sym (length-sort_by order eligible_keys))
            (length-positive eligible_keys a m) in
        let out = get_elem?-none items (c % length items) missing in
        let inside = mod-lt c there in omega arith
