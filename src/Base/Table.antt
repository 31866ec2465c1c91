-- ===== src/Base/Table.antt =====
-- A database table as a list of rows, the newest first. A query takes the first row that passes its
-- test, an update replaces that row.
use Prim.Native.Nat.{ℕ, ◌+◌, ◌≤◌}
use mathlib.Core.Path.{◌≡◌, refl, subst, ap}
use mathlib.Core.Logic.{inl, inr}
use mathlib.Core.Bool.{Bool, true, false}
use mathlib.Core.Option.{Option, none, some}
use mathlib.Core.List.{List, [], ◌∷◌}
use native.Mathlib.Omega.{arith}
use ucli_server.Base.Lists.{filter}
use ucli_server.Base.Tests.{if◌then◌else◌, if_both, Bool-cases, ◌==◌, ==_iff, ==-self}

module _ {ℓ} {A : Type ℓ} where
  abbrev pub find? : (A → Bool) → List A → Option A
  find? p [] = none
  find? p (x ∷ xs) = if p x then some x else find? p xs

  -- The first row that passes the test becomes `b`.
  abbrev pub replace : (A → Bool) → A → List A → List A
  replace p b [] = []
  replace p b (x ∷ xs) = if p x then b ∷ xs else x ∷ replace p b xs

  -- `SUM` of a column over the rows.
  abbrev pub total : (A → ℕ) → List A → ℕ
  total w [] = 0
  total w (x ∷ xs) = w x + total w xs

  abbrev pub All {κ} : (A → Type κ) → List A → Type κ
  All P [] = Unit
  All P (x ∷ xs) = P x × All P xs

  -- What a query finds passes its test.
  pub find?-passes : (p : A → Bool) (xs : List A) (a : A) → find? p xs ≡ some a → p a ≡ true
  find?-passes p [] a h = ground arith
  find?-passes p (x ∷ xs) a h = ground (arith, find?-passes p xs a)

  pub find?-replace_self :
      (p : A → Bool) (b : A) (xs : List A) (a : A)
      → find? p xs ≡ some a
      → p b ≡ true
      → find? p (replace p b xs) ≡ some b
  find?-replace_self p b [] a h k = ground arith
  find?-replace_self p b (x ∷ xs) a h k = elim (Bool-cases (p x)) [
    | inl e ↦ rw (e, replace, find?) (ground arith)
    | inr e ↦ ground (arith, find?-replace_self p b xs a)
  ]

  -- A query that passes neither the old nor the new row does not see the update.
  pub find?-replace_other :
      (p q : A → Bool) (b : A) (xs : List A)
      → ((a : A) → p a ≡ true → q a ≡ false)
      → q b ≡ false
      → find? q (replace p b xs) ≡ find? q xs
  find?-replace_other p q b [] h k = refl
  find?-replace_other p q b (x ∷ xs) h k = elim (Bool-cases (p x)) [
    | inl e ↦ let z = h x e in ground arith
    | inr e ↦ let z = find?-replace_other p q b xs h k in ground arith
  ]

  -- An update changes a sum by the difference of the two rows.
  pub total-replace :
      (w : A → ℕ) (p : A → Bool) (b : A) (xs : List A) (a : A)
      → find? p xs ≡ some a
      → total w (replace p b xs) + w a ≡ total w xs + w b
  total-replace w p b [] a h = ground arith
  total-replace w p b (x ∷ xs) a h = elim (Bool-cases (p x)) [
    | inl e ↦ ground arith
    | inr e ↦ ground (arith, total-replace w p b xs a)
  ]

  pub le-total :
      (w : A → ℕ) (p : A → Bool) (xs : List A) (a : A) → find? p xs ≡ some a → w a ≤ total w xs
  le-total w p [] a h = ground arith
  le-total w p (x ∷ xs) a h = ground (arith, le-total w p xs a)

  pub All-find? {κ} :
      (P : A → Type κ) (p : A → Bool) (xs : List A) (a : A) → All P xs → find? p xs ≡ some a → P a
  All-find? P p [] a h e = absurd (cc)
  All-find? P p (x ∷ xs) a h e = elim (Bool-cases (p x)) [
    | inl t ↦ subst P (ground arith) h.0
    | inr t ↦ All-find? P p xs a h.1 (ground arith)
  ]

  pub All-replace {κ} :
      (P : A → Type κ) (p : A → Bool) (b : A) (xs : List A)
      → All P xs
      → P b
      → All P (replace p b xs)
  All-replace P p b [] h k = tt
  All-replace P p b (x ∷ xs) h k = elim (Bool-cases (p x)) [
    | inl t ↦ rw t (k, h.1)
    | inr t ↦ rw t (h.0, All-replace P p b xs h.1 k)
  ]

-- `UPDATE ... WHERE`: every row that passes the test is written.
module _ {ℓ} {A : Type ℓ} where
  abbrev pub update_where : (A → Bool) → (A → A) → List A → List A
  update_where p f [] = []
  update_where p f (x ∷ xs) = (if p x then f x else x) ∷ update_where p f xs

  -- A query that the update does not bear on finds the same row, as it was written.
  pub find?-update_where :
      (q p : A → Bool) (f : A → A) (xs : List A) (a : A)
      → ((x : A) → q (f x) ≡ q x)
      → find? q xs ≡ some a
      → find? q (update_where p f xs) ≡ some (if p a then f a else a)
  find?-update_where q p f [] a h e = absurd (cc)
  find?-update_where q p f (x ∷ xs) a h e = elim (Bool-cases (q x)) [
    | inl t ↦
        let same : x ≡ a = ground arith in
        let kept : q (if p x then f x else x) ≡ true =
          if_both (λ y. q y ≡ true) (p x) (rw (h x) t) t in
        rw kept (rw same refl)
    | inr t ↦
        let gone : q (if p x then f x else x) ≡ false =
          if_both (λ y. q y ≡ false) (p x) (rw (h x) t) t in
        rw gone (find?-update_where q p f xs a h (ground arith))
  ]

-- Rows with an identifier.
module _ {ℓ} {A : Type ℓ} (key : A → ℕ) (col : A → ℕ) where
  -- A column of the row with the identifier `k`, or 0.
  abbrev pub value_at : ℕ → List A → ℕ
  value_at k [] = 0
  value_at k (x ∷ xs) = if key x == k then col x else value_at k xs

  pub value_at-replace :
      (k : ℕ) (b : A) (xs : List A) (a : A)
      → find? (λ x. key x == key b) xs ≡ some a
      → value_at k (replace (λ x. key x == key b) b xs) + (if key b == k then col a else 0)
        ≡ value_at k xs + (if key b == k then col b else 0)
  value_at-replace k b [] a h = absurd (cc)
  value_at-replace k b (x ∷ xs) a h = elim (Bool-cases (key x == key b)) [
    | inl e ↦ ground arith
    | inr e ↦ ground (arith, value_at-replace k b xs a)
  ]

  -- An identifier that no row has stands at 0.
  pub value_at-none : (k : ℕ) (xs : List A) → find? (λ x. key x == k) xs ≡ none → value_at k xs ≡ 0
  value_at-none k [] h = refl
  value_at-none k (x ∷ xs) h = ground (arith, value_at-none k xs)

-- A primary key: no later row repeats an identifier.
module _ {ℓ} {A : Type ℓ} (key : A → ℕ) where
  abbrev pub Distinct : List A → Type ℓ
  Distinct [] = Unit
  Distinct (x ∷ xs) = (find? (λ y. key y == key x) xs ≡ none) × Distinct xs

  -- A row that some query finds is the row of its identifier.
  pub find?-key :
      (q : A → Bool) (xs : List A) (a : A)
      → Distinct xs
      → find? q xs ≡ some a
      → find? (λ x. key x == key a) xs ≡ some a
  find?-key q [] a d h = absurd (cc)
  find?-key q (x ∷ xs) a d h = elim (Bool-cases (q x)) [
    | inl e ↦ let same : x ≡ a = ground arith in rw same (ground arith)
    | inr e ↦
        let later : find? (λ x. key x == key a) xs ≡ some a = find?-key q xs a d.1 (ground arith) in
        elim (Bool-cases (key x == key a)) [
          | inl s ↦
              let same : key x ≡ key a = ground arith in
              let clash : find? (λ x. key x == key a) xs ≡ none = rw (← same) d.0 in absurd (cc)
          | inr s ↦ ground arith
        ]
  ]

  find?-replace-none :
      (k : ℕ) (b : A) (xs : List A)
      → find? (λ x. key x == k) xs ≡ none
      → find? (λ x. key x == k) (replace (λ x. key x == key b) b xs) ≡ none
  find?-replace-none k b [] h = refl
  find?-replace-none k b (x ∷ xs) h = elim (Bool-cases (key x == key b)) [
    | inl e ↦ ground arith
    | inr e ↦ ground (arith, find?-replace-none k b xs)
  ]

  pub Distinct-replace :
      (b : A) (xs : List A) → Distinct xs → Distinct (replace (λ x. key x == key b) b xs)
  Distinct-replace b [] d = tt
  Distinct-replace b (x ∷ xs) d = elim (Bool-cases (key x == key b)) [
    | inl e ↦
        let same : key x ≡ key b = ground arith in
        rw (e, replace) (subst (λ k. find? (λ y. key y == k) xs ≡ none) same d.0, d.1)
    | inr e ↦ rw (e, replace) (find?-replace-none (key x) b xs d.0, Distinct-replace b xs d.1)
  ]

  pub find?-update_where-none :
      (k : ℕ) (p : A → Bool) (f : A → A) (xs : List A)
      → ((x : A) → key (f x) ≡ key x)
      → find? (λ x. key x == k) xs ≡ none
      → find? (λ x. key x == k) (update_where p f xs) ≡ none
  find?-update_where-none k p f [] same h = refl
  find?-update_where-none k p f (x ∷ xs) same h =
      let apart : (key x == k) ≡ false = ground arith in
      let gone : (key (if p x then f x else x) == k) ≡ false =
        if_both (λ y. (key y == k) ≡ false) (p x) (rw (same x) apart) apart in
      rw gone (find?-update_where-none k p f xs same (ground arith))

  pub Distinct-update_where :
      (p : A → Bool) (f : A → A) (xs : List A)
      → ((x : A) → key (f x) ≡ key x)
      → Distinct xs
      → Distinct (update_where p f xs)
  Distinct-update_where p f [] same d = tt
  Distinct-update_where p f (x ∷ xs) same d = (
    if_both (λ y. find? (λ z. key z == key y) (update_where p f xs) ≡ none) (p x)
        (rw (same x) (find?-update_where-none (key x) p f xs same d.0))
        (find?-update_where-none (key x) p f xs same d.0),
    Distinct-update_where p f xs same d.1,
  )

  find?-filter-none :
      (k : ℕ) (p : A → Bool) (xs : List A)
      → find? (λ x. key x == k) xs ≡ none
      → find? (λ x. key x == k) (filter p xs) ≡ none
  find?-filter-none k p [] h = refl
  find?-filter-none k p (x ∷ xs) h =
      let later = find?-filter-none k p xs (ground arith) in
      let apart : (key x == k) ≡ false = ground arith in
      if_both (λ ys. find? (λ y. key y == k) ys ≡ none) (p x) (rw apart later) later

  pub Distinct-filter : (p : A → Bool) (xs : List A) → Distinct xs → Distinct (filter p xs)
  Distinct-filter p [] d = tt
  Distinct-filter p (x ∷ xs) d =
      let later = Distinct-filter p xs d.1 in
      if_both Distinct (p x) (find?-filter-none (key x) p xs d.0, later) later

  -- The rows that a query over a table with a primary key lists are rows of the table.
  pub filter-found :
      (p : A → Bool) (xs : List A)
      → Distinct xs
      → All (λ a. (find? (λ x. key x == key a) xs ≡ some a) × (p a ≡ true)) (filter p xs)
  filter-found p [] d = tt
  filter-found p (x ∷ xs) d =
      let later = after (filter p xs) (filter-found p xs d.1) in
      elim (Bool-cases (p x)) [
        | inl e ↦ rw e ((rw (==-self (key x)) refl, e), later)
        | inr e ↦ rw e later
      ]
    where
      after :
          (ys : List A)
          → All (λ a. (find? (λ y. key y == key a) xs ≡ some a) × (p a ≡ true)) ys
          → All (λ a. (find? (λ y. key y == key a) (x ∷ xs) ≡ some a) × (p a ≡ true)) ys
      after [] h = tt
      after (y ∷ ys) h = (
        (
          elim (Bool-cases (key x == key y)) [
            | inr e ↦ rw e h.0.0
            | inl e ↦
                let same : key x ≡ key y = ground arith in
                let clash : find? (λ z. key z == key y) xs ≡ none = rw (← same) d.0 in absurd (cc)
          ],
          h.0.1,
        ),
        after ys h.1,
      )

  -- A row that passes the test is listed.
  pub find?-filter :
      (k : ℕ) (p : A → Bool) (xs : List A) (a : A)
      → find? (λ x. key x == k) xs ≡ some a
      → p a ≡ true
      → find? (λ x. key x == k) (filter p xs) ≡ some a
  find?-filter k p [] a h e = absurd (cc)
  find?-filter k p (x ∷ xs) a h e = elim (Bool-cases (key x == k)) [
    | inl t ↦
        let same : x ≡ a = ground arith in
        let passes : p x ≡ true = rw same e in rw passes (rw t (ap some same))
    | inr t ↦
        let later = find?-filter k p xs a (ground arith) e in
        if_both (λ ys. find? (λ y. key y == k) ys ≡ some a) (p x) (rw t later) later
  ]

  pub find?-self :
      (k : ℕ) (xs : List A) (a : A)
      → find? (λ x. key x == k) xs ≡ some a
      → find? (λ x. key x == key a) xs ≡ some a
  find?-self k xs a h =
      let same : key a ≡ k = (==_iff (key a) k).0 (find?-passes (λ x. key x == k) xs a h) in
      rw same h

  -- A query by identifier, after the row of one identifier was replaced.
  pub find?-replace :
      (k : ℕ) (b : A) (xs : List A) (a : A)
      → find? (λ x. key x == key b) xs ≡ some a
      → find? (λ x. key x == k) (replace (λ x. key x == key b) b xs)
        ≡ (if key b == k then some b else find? (λ x. key x == k) xs)
  find?-replace k b [] a h = absurd (cc)
  find?-replace k b (x ∷ xs) a h = elim (Bool-cases (key x == key b)) [
    | inl e ↦ ground arith
    | inr e ↦ ground (arith, find?-replace k b xs a)
  ]
