-- ===== src/Budget/Result.antt =====
-- The exceptions that the services throw, as values. A transaction that throws is rolled back, so an
-- error comes with no new state.
use ucli_server.Base.{Bool, true, false, ◌≡◌, refl, Option, none, some}

-- The codes that a bad request can carry.
pub data Code : Type 0 where
  invalid_link invalid_device invalid_grant link_consumed link_revoked link_expired : Code
  grant_deleted grant_disabled grant_expired grant_bound account_inactive : Code
  organization_inactive : Code

-- `failed` is an exception that is no answer of the API. The two violations are the database's: a CHECK
-- constraint or a column's range, and a unique index.
pub data Error : Type 0 where
  bad_request forbidden unauthorized not_found conflict budget_exceeded failed : Error
  check_violation unique_violation : Error
  coded : Code → Error

pub data Result {ℓ} (Answer : Type ℓ) : Type ℓ where
  err : Error → Result Answer
  ok : Answer → Result Answer

-- `if (!test) throw e`.
unfoldable pub require : Bool → Error → Result (Unit {0})
require false thrown = err thrown
require true thrown = ok tt

-- `if (!row) throw e`.
unfoldable pub or_throw {ℓ} : {A : Type ℓ} → Option A → Error → Result A
or_throw none e = err e
or_throw (some a) e = ok a

-- `if (row) return m(row)`, and the code that follows.
unfoldable pub if_found {ℓ κ} :
    {A : Type ℓ} {B : Type κ} → Option B → (B → Result A) → Result A → Result A
if_found (some b) m n = m b
if_found none m n = n

infixl 5 ◌>>=◌ ◌>>◌
-- Opening this opens `require`, `or_throw` and `if_found` too.
unfoldable pub ◌>>=◌ {ℓ κ} :
    {First : Type ℓ} {Last : Type κ} → Result First → (First → Result Last) → Result Last
unfolding require or_throw if_found
err thrown >>= next = err thrown
ok answer >>= next = next answer

abbrev pub ◌>>◌ {ℓ} : {Last : Type ℓ} → Result (Unit {0}) → Result Last → Result Last
first >> last = first >>= λ done. last

-- A block that returned went through its first step.
pub >>=-eq-ok {ℓ κ} :
    {First : Type ℓ} {Last : Type κ} (first : Result First) (next : First → Result Last)
    {last : Last}
    → (first >>= next) ≡ ok last
    → (answer : First) × (first ≡ ok answer) × (next answer ≡ ok last)
unfolding ◌>>=◌
>>=-eq-ok (err thrown) next returned = cc
>>=-eq-ok (ok answer) next returned = (answer, refl, returned)

-- What a test that did not throw says, and a row that was there.
pub require-eq-ok : (b : Bool) (x : Error) {u : Unit {0}} → require b x ≡ ok u → b ≡ true
unfolding require
require-eq-ok true x h = refl
require-eq-ok false x h = cc

pub or_throw-eq-ok {ℓ} :
    {A : Type ℓ} (o : Option A) (x : Error) (a : A) → or_throw o x ≡ ok a → o ≡ some a
unfolding or_throw
or_throw-eq-ok none x a h = cc
or_throw-eq-ok (some b) x a h = cc

-- A row that is there, before the rest of a block.
pub or_throw-bind {ℓ κ} :
    {A : Type ℓ} {B : Type κ} (o : Option A) (x : Error) (k : A → Result B) (a : A)
    → o ≡ some a
    → (or_throw o x >>= k) ≡ k a
unfolding ◌>>=◌
or_throw-bind (some b) x k a h = let same : b ≡ a = cc in rw same refl
or_throw-bind none x k a h = absurd (cc)

-- A block goes on with what its first step returns.
pub bind-ok {ℓ κ} :
    {A : Type ℓ} {B : Type κ} (m : Result A) (f : A → Result B) {a : A} → m ≡ ok a → (m >>= f) ≡ f a
unfolding ◌>>=◌
bind-ok m f h = rw (h, ◌>>=◌)

pub require-bind {ℓ} :
    {B : Type ℓ} (b : Bool) (x : Error) (k : Result B) → b ≡ true → (require b x >> k) ≡ k
unfolding ◌>>=◌
require-bind true x k h = refl
require-bind false x k h = cc

pub if_found-some {ℓ κ} :
    {A : Type ℓ} {B : Type κ} (o : Option B) (m : B → Result A) (n : Result A) {b : B}
    → o ≡ some b
    → if_found o m n ≡ m b
unfolding if_found
if_found-some o m n h = rw (h, if_found)
