-- ===== src/Base/Tests.antt =====
-- Boolean tests on the native numbers and on options, and the conditional.
use Prim.Native.Nat.{ℕ, compare, Ordering}
use mathlib.Core.Path.{◌≡◌, refl}
use mathlib.Core.Logic.{◌↔◌, ◌⊎◌, inl, inr}
use mathlib.Core.Bool.{Bool, true, false}
use mathlib.Core.Option.{Option, none, some}
use native.Mathlib.Omega.{arith}

abbrev pub ltb : ℕ → ℕ → Bool
ltb a b = elim (compare a b) [ Ordering.lt ↦ true | _ ↦ false ]

abbrev pub leb : ℕ → ℕ → Bool
leb a b = elim (compare a b) [ Ordering.gt ↦ false | _ ↦ true ]

infix 50 ◌==◌
abbrev pub ◌==◌ : ℕ → ℕ → Bool
a == b = elim (compare a b) [ Ordering.eq ↦ true | _ ↦ false ]

infix 1 if◌then◌else◌
abbrev pub if◌then◌else◌ {ℓ} : {A : Type ℓ} → Bool → A → A → A
if true then x else y = x
if false then x else y = y

abbrev pub is_some {ℓ} : {A : Type ℓ} → Option A → Bool
is_some none = false
is_some (some a) = true

abbrev pub is_none {ℓ} : {A : Type ℓ} → Option A → Bool
is_none none = true
is_none (some a) = false

-- `a ?? b` at a nullable `a`.
abbrev pub or_else {ℓ} : {A : Type ℓ} → Option A → A → A
or_else none b = b
or_else (some a) b = a

-- Equality of nullable identifiers.
abbrev pub same_option : Option ℕ → Option ℕ → Bool
same_option none none = true
same_option (some a) (some b) = a == b
same_option _ _ = false

pub ==_iff : (a b : ℕ) → ((a == b) ≡ true) ↔ (a ≡ b)
==_iff a b = ground arith

pub ==-self : (a : ℕ) → (a == a) ≡ true
==-self a = ground arith

-- To split on a computed value and keep the equation.
pub Bool-cases : (b : Bool) → (b ≡ true) ⊎ (b ≡ false)
Bool-cases true = inl refl
Bool-cases false = inr refl

pub Option-cases {ℓ} : {A : Type ℓ} (o : Option A) → (o ≡ none) ⊎ ((a : A) × (o ≡ some a))
Option-cases none = inl refl
Option-cases (some a) = inr (a, refl)

-- A property of both branches.
pub if_both {ℓ κ} :
    {A : Type ℓ} (P : A → Type κ) (b : Bool) {x y : A} → P x → P y → P (if b then x else y)
if_both P true h k = h
if_both P false h k = k

-- The same for an `elim`, with what the computed value is.
pub elim_Option {ℓ κ ι} :
    {A : Type ℓ} {B : Type κ} (P : B → Type ι) (o : Option A) {x : B} {f : A → B}
    → (o ≡ none → P x)
    → ((a : A) → o ≡ some a → P (f a))
    → P (elim o [ none ↦ x | some a ↦ f a ])
elim_Option P none h k = h refl
elim_Option P (some a) h k = k a refl

pub elim_Bool {ℓ κ} :
    {A : Type ℓ} (P : A → Type κ) (b : Bool) {x y : A}
    → (b ≡ true → P x)
    → (b ≡ false → P y)
    → P (elim b [ true ↦ x | false ↦ y ])
elim_Bool P true h k = h refl
elim_Bool P false h k = k refl

pub is_none-eq {ℓ} : {A : Type ℓ} (o : Option A) → is_none o ≡ true → o ≡ none
is_none-eq none h = refl
is_none-eq (some a) h = cc
