-- ===== src/Api/Keys/Throttle.antt =====
-- The limit on wrong passwords of `revealOwn` in apps/api/src/employee-keys.service.ts, for calls that
-- run one after the other.
use ucli_server.Base.{
  ℕ, suc, ◌+◌, ◌-◌, ◌≤◌, ◌<◌, ◌≡◌, refl, inl, inr, true, false, not, Option, none, some, List, [],
  ◌∷◌, String, ltb, leb, arith, Bool-cases, subst, sym, if◌then◌else◌,
}
use ucli_server.Base.Table.{All, find?-passes}
use ucli_server.Budget.Ledger.{Db}
use ucli_server.Budget.Result.{Result, ok, err, require, unauthorized, >>=-eq-ok, require-eq-ok}
use ucli_server.Api.Keys.{Session, assert_web_session}
use ucli_server.Api.Keys.Reveal.{
  Vault, Attempts, attempts_of, is_own, is_throttled, first_attempt, next_attempts, count_attempt,
  password_is_right, reveal_begin, reveal_finish, reveal_own, reveal_then,
}

-- A call of `revealOwn`.
pub record Guess : Type 0 where
  pub key : ℕ
  pub password : String
  pub now : ℕ

-- One more, where the first part of a call did not throw.
abbrev pub count_passed {ℓ} : {A : Type ℓ} → Result A → ℕ → ℕ
count_passed (err x) n = n
count_passed (ok a) n = suc n

-- How many of the calls, one after the other, get as far as the test of the password.
unfoldable pub password_checks : Vault → Db → List Attempts → Session → List Guess → ℕ
unfolding reveal_own reveal_begin
password_checks v db all actor [] = 0
password_checks v db all actor (g ∷ gs) =
    let rest = password_checks v db (reveal_own v db all actor g.key g.password g.now).0 actor gs in
    count_passed (reveal_begin all actor g.now) rest

-- How many tests are left in the five minutes from `start`: five where no wrong password is remembered, or
-- only from a window that is over; what is left of five where the window that runs lasts to the end; and
-- five more where it ends before.
unfoldable pub allowance : ℕ → Option Attempts → ℕ
allowance start none = 5
allowance start (some a) =
    if leb a.reset_at start
    then 5
    else if leb (start + 300000) a.reset_at
    then 5 - a.count
    else (5 - a.count) + 5

abbrev pub IsWrong : Vault → Session → ℕ → Guess → Type 0
IsWrong v actor start g =
    (password_is_right v actor.sub g.password ≡ false) × (start ≤ g.now) × (g.now < start + 300000)

is_own-first : (actor : Session) (now : ℕ) → is_own actor (first_attempt actor now) ≡ true
is_own-first actor now = ground arith

is_own-next :
    (actor : Session) (seen : Option Attempts) (now : ℕ) (all : List Attempts)
    → attempts_of all actor ≡ seen
    → is_own actor (next_attempts seen actor now) ≡ true
unfolding attempts_of next_attempts
is_own-next actor none now all h = is_own-first actor now
is_own-next actor (some a) now all h = elim (Bool-cases (ltb now a.reset_at)) [
  | inl e ↦ rw e (find?-passes (is_own actor) all a h)
  | inr e ↦ rw e (is_own-first actor now)
]

attempts_of-count :
    (all : List Attempts) (seen : Option Attempts) (actor : Session) (now : ℕ)
    → attempts_of all actor ≡ seen
    → attempts_of (count_attempt all seen actor now) actor ≡ some (next_attempts seen actor now)
unfolding attempts_of count_attempt
attempts_of-count all seen actor now h = rw (is_own-next actor seen now all h) refl

-- One more wrong password.
allowance-next :
    (seen : Option Attempts) (actor : Session) (start now : ℕ)
    → start ≤ now
    → now < start + 300000
    → is_throttled seen now ≡ false
    → suc (allowance start (some (next_attempts seen actor now))) ≤ allowance start seen
unfolding is_throttled next_attempts allowance
allowance-next none actor start now h l t = ground arith
allowance-next (some a) actor start now h l t = elim (Bool-cases (ltb now a.reset_at)) [
  | inl e ↦ rw e (ground arith)
  | inr e ↦ rw e (ground arith)
]

reveal_begin-ok :
    (all : List Attempts) (actor : Session) (now : ℕ) (seen : Option Attempts)
    → reveal_begin all actor now ≡ ok seen
    → (is_throttled (attempts_of all actor) now ≡ false) × (attempts_of all actor ≡ seen)
unfolding reveal_begin
reveal_begin-ok all actor now seen h =
    let web = >>=-eq-ok (assert_web_session actor) _ h in
    let free =
      >>=-eq-ok (require (not (is_throttled (attempts_of all actor) now)) unauthorized) _ web.2 in
    let test = require-eq-ok (not (is_throttled (attempts_of all actor) now)) unauthorized free.1 in
    let last : ok (attempts_of all actor) ≡ ok seen = free.2 in (ground arith, cc)

reveal_then-wrong :
    (v : Vault) (db : Db) (all : List Attempts) (actor : Session) (g : Guess)
    (seen : Option Attempts)
    → password_is_right v actor.sub g.password ≡ false
    → (reveal_then v db all actor g.key g.password g.now (ok seen)).0
      ≡ count_attempt all seen actor g.now
unfolding reveal_then reveal_finish
reveal_then-wrong v db all actor g seen w = rw w refl

module _ (v : Vault) (db : Db) (actor : Session) (start : ℕ) where
  -- One call, by what its first part did; `rest` bounds the calls that follow.
  one_check :
      (all : List Attempts) (g : Guess) (gs : List Guess) (b : Result (Option Attempts))
      → reveal_begin all actor g.now ≡ b
      → IsWrong v actor start g
      → ((next : List Attempts)
          → password_checks v db next actor gs ≤ allowance start (attempts_of next actor))
      → count_passed b
          (password_checks v db (reveal_then v db all actor g.key g.password g.now b).0 actor gs)
        ≤ allowance start (attempts_of all actor)
  unfolding reveal_then
  one_check all g gs (err x) e wrong rest = rest all
  one_check all g gs (ok seen) e wrong rest =
      let begun = reveal_begin-ok all actor g.now seen e in
      let more =
        allowance-next seen actor start g.now wrong.1 wrong.2
          (subst (λ o. is_throttled o g.now ≡ false) begun.1 begun.0) in
      let next = count_attempt all seen actor g.now in
      let bound : password_checks v db next actor gs
          ≤ allowance start (some (next_attempts seen actor g.now)) =
        subst (λ o. password_checks v db next actor gs ≤ allowance start o)
          (attempts_of-count all seen actor g.now begun.1) (rest next) in
      let same = reveal_then-wrong v db all actor g seen wrong.0 in
      let total : suc (password_checks v db next actor gs) ≤ allowance start seen =
        omega (arith, bound, more) in
      subst (λ xs. suc (password_checks v db xs actor gs) ≤ allowance start (attempts_of all actor))
        (sym same)
        (subst (λ o. suc (password_checks v db next actor gs) ≤ allowance start o) (sym begun.1)
          total)

-- Of the calls of one person, one after the other, that come within five minutes with a wrong password,
-- at most five have their password tested when no wrong password is remembered, or only from a window
-- that is over when the five minutes start. Where a window runs, at most what it leaves of five have
-- theirs tested if it lasts to the end of the five minutes, and at most five more than that if it ends
-- before.
pub password_checks-allowance :
    (v : Vault) (db : Db) (actor : Session) (start : ℕ) (all : List Attempts) (gs : List Guess)
    → All (IsWrong v actor start) gs
    → password_checks v db all actor gs ≤ allowance start (attempts_of all actor)
unfolding password_checks reveal_own
password_checks-allowance v db actor start all [] h = ground arith
password_checks-allowance v db actor start all (g ∷ gs) h =
    one_check v db actor start all g gs (reveal_begin all actor g.now) refl h.0
      (λ next. password_checks-allowance v db actor start next gs h.1)
