-- ===== src/Base/Sorting.antt =====
-- A sort by a test of order, stable as `Array.prototype.sort` is, and what the first item of a sorted
-- list that passes a test says of all the items.
use mathlib.Core.Path.{◌≡◌, refl, subst}
use mathlib.Core.Logic.{inl, inr}
use mathlib.Core.Bool.{Bool, true, false}
use mathlib.Core.Option.{none, some}
use mathlib.Core.List.{List, [], ◌∷◌}
use native.Mathlib.Omega.{arith}
use ucli_server.Base.Tests.{if◌then◌else◌, Bool-cases}
use ucli_server.Base.Table.{find?, All}

module _ {A : Type 0} where
  unfoldable pub insert_by : (A → A → Bool) → A → List A → List A
  insert_by before x [] = x ∷ []
  insert_by before x (y ∷ ys) =
      let rest = insert_by before x ys in if before y x then y ∷ rest else x ∷ y ∷ ys

  unfoldable pub sort_by : (A → A → Bool) → List A → List A
  unfolding insert_by
  sort_by before [] = []
  sort_by before (x ∷ xs) = insert_by before x (sort_by before xs)

  -- A comparator that is consistent, as `sort` asks: a strict order whose ties are transitive.
  pub record IsOrder (before : A → A → Bool) : Type 0 where
    pub asym : (x y : A) → before x y ≡ true → before y x ≡ false
    pub ties : (x y z : A) → before x y ≡ false → before y z ≡ false → before x z ≡ false

  abbrev pub Sorted : (A → A → Bool) → List A → Type 0
  Sorted before [] = Unit
  Sorted before (x ∷ xs) = All (λ y. before y x ≡ false) xs × Sorted before xs

  All-map : (P Q : A → Type 0) (xs : List A) → ((x : A) → P x → Q x) → All P xs → All Q xs
  All-map P Q [] k h = tt
  All-map P Q (x ∷ xs) k h = (k x h.0, All-map P Q xs k h.1)

  All-insert_by :
      (before : A → A → Bool) (P : A → Type 0) (x : A) (ys : List A)
      → P x
      → All P ys
      → All P (insert_by before x ys)
  unfolding insert_by
  All-insert_by before P x [] h k = (h, tt)
  All-insert_by before P x (y ∷ ys) h k = elim (Bool-cases (before y x)) [
    | inl e ↦ rw e (k.0, All-insert_by before P x ys h k.1)
    | inr e ↦ rw e (h, k)
  ]

  All-uninsert :
      (before : A → A → Bool) (P : A → Type 0) (x : A) (ys : List A)
      → All P (insert_by before x ys)
      → P x × All P ys
  unfolding insert_by
  All-uninsert before P x [] h = h
  All-uninsert before P x (y ∷ ys) h = elim (Bool-cases (before y x)) [
    | inl e ↦
        let step : insert_by before x (y ∷ ys) ≡ y ∷ insert_by before x ys =
          rw (e, insert_by) refl in
        let later : P y × All P (insert_by before x ys) = subst (All P) step h in
        let rest = All-uninsert before P x ys later.1 in (rest.0, (later.0, rest.1))
    | inr e ↦
        let step : insert_by before x (y ∷ ys) ≡ x ∷ y ∷ ys = rw (e, insert_by) refl in
        subst (All P) step h
  ]

  -- A sort keeps what holds of all items, and what holds of all its items held before.
  pub All-sort_by :
      (before : A → A → Bool) (P : A → Type 0) (xs : List A) → All P xs → All P (sort_by before xs)
  unfolding sort_by
  All-sort_by before P [] h = tt
  All-sort_by before P (x ∷ xs) h =
      All-insert_by before P x (sort_by before xs) h.0 (All-sort_by before P xs h.1)

  pub All-unsort :
      (before : A → A → Bool) (P : A → Type 0) (xs : List A) → All P (sort_by before xs) → All P xs
  unfolding sort_by
  All-unsort before P [] h = tt
  All-unsort before P (x ∷ xs) h =
      let k = All-uninsert before P x (sort_by before xs) h in (k.0, All-unsort before P xs k.1)

  insert_by-Sorted :
      (before : A → A → Bool) (o : IsOrder before) (x : A) (ys : List A)
      → Sorted before ys
      → Sorted before (insert_by before x ys)
  unfolding insert_by
  insert_by-Sorted before o x [] h = (tt, tt)
  insert_by-Sorted before o x (y ∷ ys) h = elim (Bool-cases (before y x)) [
    | inl e ↦ rw e (
      All-insert_by before (λ z. before z y ≡ false) x ys (o.asym y x e) h.0,
      insert_by-Sorted before o x ys h.1,
    )
    | inr e ↦ rw e (
      (
        e,
        All-map (λ z. before z y ≡ false) (λ z. before z x ≡ false) ys (λ z k. o.ties z y x k e)
            h.0,
      ),
      h,
    )
  ]

  pub sort_by-Sorted :
      (before : A → A → Bool) → IsOrder before → (xs : List A) → Sorted before (sort_by before xs)
  unfolding sort_by
  sort_by-Sorted before o [] = tt
  sort_by-Sorted before o (x ∷ xs) =
      insert_by-Sorted before o x (sort_by before xs) (sort_by-Sorted before o xs)

  irreflexive : (before : A → A → Bool) → IsOrder before → (x : A) → before x x ≡ false
  irreflexive before o x = elim (Bool-cases (before x x)) [ inl e ↦ o.asym x x e | inr e ↦ e ]

  -- In a sorted list no item that passes a test comes before the first one that does.
  find?-Sorted :
      (before : A → A → Bool) (o : IsOrder before) (p : A → Bool) (xs : List A) (a : A)
      → Sorted before xs
      → find? p xs ≡ some a
      → All (λ x. p x ≡ true → before x a ≡ false) xs
  find?-Sorted before o p [] a s h = tt
  find?-Sorted before o p (x ∷ xs) a s h = elim (Bool-cases (p x)) [
    | inl e ↦
        let same : x ≡ a = ground arith in
        subst (λ b. All (λ z. p z ≡ true → before z b ≡ false) (x ∷ xs)) same
          (
            λ k. irreflexive before o x,
            All-map (λ z. before z x ≡ false) (λ z. p z ≡ true → before z x ≡ false) xs (λ z k l. k)
                s.0,
          )
    | inr e ↦ (λ k. ground arith, find?-Sorted before o p xs a s.1 (ground arith))
  ]

  pub find?-sort_by :
      (before : A → A → Bool)
      → IsOrder before
      → (p : A → Bool) (xs : List A) (a : A) → find? p (sort_by before xs) ≡ some a
      → All (λ x. p x ≡ true → before x a ≡ false) xs
  find?-sort_by before o p xs a h =
      All-unsort before (λ x. p x ≡ true → before x a ≡ false) xs
        (find?-Sorted before o p (sort_by before xs) a (sort_by-Sorted before o xs) h)

  pub find?-fails : (p : A → Bool) (xs : List A) → find? p xs ≡ none → All (λ x. p x ≡ false) xs
  find?-fails p [] h = tt
  find?-fails p (x ∷ xs) h = (ground arith, find?-fails p xs (ground arith))

  pub find?-sort_by-none :
      (before : A → A → Bool) (p : A → Bool) (xs : List A)
      → find? p (sort_by before xs) ≡ none
      → All (λ x. p x ≡ false) xs
  find?-sort_by-none before p xs h =
      All-unsort before (λ x. p x ≡ false) xs (find?-fails p (sort_by before xs) h)
