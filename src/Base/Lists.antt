-- ===== src/Base/Lists.antt =====
-- Lists with the tests of the source: `some`, `every`, `filter`, `includes`, `length`.
use Prim.Native.Nat.{ℕ, zero, suc, ◌+◌}
use mathlib.Core.Bool.{Bool, true, false, ◌&&◌, ◌||◌}
use mathlib.Core.Option.{Option, none, some}
use mathlib.Core.List.{List, [], ◌∷◌}
use ucli_server.Base.Tests.{if◌then◌else◌, ◌==◌}

module _ {ℓ} {A : Type ℓ} where
  abbrev pub length : List A → ℕ
  length [] = 0
  length (x ∷ xs) = suc (length xs)

  abbrev pub get_elem? : List A → ℕ → Option A
  get_elem? [] i = none
  get_elem? (x ∷ xs) zero = some x
  get_elem? (x ∷ xs) (suc i) = get_elem? xs i

  abbrev pub filter : (A → Bool) → List A → List A
  filter p [] = []
  filter p (x ∷ xs) = let rest = filter p xs in if p x then x ∷ rest else rest

  -- `xs.some(p)` and `xs.every(p)`.
  abbrev pub any : (A → Bool) → List A → Bool
  any p [] = false
  any p (x ∷ xs) = p x || any p xs

  abbrev pub every : (A → Bool) → List A → Bool
  every p [] = true
  every p (x ∷ xs) = p x && every p xs

-- How many items pass a test.
abbrev pub count_if {ℓ} : {A : Type ℓ} → (A → Bool) → List A → ℕ
count_if p [] = 0
count_if p (x ∷ xs) = (if p x then 1 else 0) + count_if p xs

abbrev pub includes : List ℕ → ℕ → Bool
includes xs k = any (λ x. x == k) xs
