-- ===== src/Budget/Ensures.antt =====
-- A postcondition of a transaction, with a rule for each way to write one.
use ucli_server.Base.{Bool, true, false, ◌≡◌, refl, if◌then◌else◌, Option, none, some}
use ucli_server.Budget.Result.{Error, Result, ok, err, ◌>>=◌, ◌>>◌, require, if_found}

-- Whatever `m` returns meets `P`. A throw returns nothing.
pub record Ensures {ℓ κ} {A : Type ℓ} (P : A → Type κ) (m : Result A) : Type (ℓ ⊔ κ) where
  pub at : (a : A) → m ≡ ok a → P a

module _ {ℓ κ} {A : Type ℓ} {P : A → Type κ} where
  pub Ensures-ok : (a : A) → P a → Ensures P (ok a)
  Ensures-ok a h = record { at = λ b e. subst_ok b (ok_inj b e) }
    where
      ok_inj : (b : A) → ok a ≡ ok b → a ≡ b
      ok_inj b e = cc

      subst_ok : (b : A) → a ≡ b → P b
      subst_ok b e = rw (← e) h

  pub Ensures-err : (e : Error) → Ensures P (err e)
  Ensures-err e = record { at = λ b h. cc }

  pub Ensures-if :
      (b : Bool) (m n : Result A)
      → (b ≡ true → Ensures P m)
      → (b ≡ false → Ensures P n)
      → Ensures P (if b then m else n)
  Ensures-if true m n km kn = km refl
  Ensures-if false m n km kn = kn refl

pub Ensures-bind {ℓ κ ι} :
    {A : Type ℓ} {B : Type ι} {P : B → Type κ} (m : Result A) (f : A → Result B)
    → ((a : A) → m ≡ ok a → Ensures P (f a))
    → Ensures P (m >>= f)
unfolding ◌>>=◌
Ensures-bind (ok a) f k = k a refl
Ensures-bind (err e) f k = Ensures-err e

-- A test that throws, before the rest of a block.
pub Ensures-require {ℓ κ} :
    {A : Type ℓ} {P : A → Type κ} (b : Bool) (x : Error) (n : Result A)
    → (b ≡ true → Ensures P n)
    → Ensures P (require b x >> n)
unfolding ◌>>=◌
Ensures-require true x n k = k refl
Ensures-require false x n k = Ensures-err x

-- A branch on a row that a query may have found.
pub Ensures-found {ℓ κ ι} :
    {A : Type ℓ} {B : Type ι} {P : A → Type κ} (o : Option B) (m : B → Result A) (n : Result A)
    → ((b : B) → o ≡ some b → Ensures P (m b))
    → (o ≡ none → Ensures P n)
    → Ensures P (if_found o m n)
unfolding if_found
Ensures-found (some b) m n km kn = km b refl
Ensures-found none m n km kn = kn refl

-- A postcondition of a part, carried over the rest of the block.
pub Ensures-then {ℓ κ ι μ} :
    {A : Type ℓ} {B : Type ι} {P : B → Type κ} {Q : A → Type μ} (m : Result A) (f : A → Result B)
    → Ensures Q m
    → ((a : A) → m ≡ ok a → Q a → Ensures P (f a))
    → Ensures P (m >>= f)
Ensures-then m f h k = Ensures-bind m f (λ a e. k a e (h.at a e))

-- A weaker postcondition.
pub Ensures-map {ℓ κ μ} :
    {A : Type ℓ} {P : A → Type κ} {Q : A → Type μ} (m : Result A)
    → Ensures Q m
    → ((a : A) → Q a → Ensures P (ok a))
    → Ensures P m
Ensures-map (ok a) h k = k a (h.at a refl)
Ensures-map (err e) h k = Ensures-err e
