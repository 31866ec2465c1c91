-- ===== src/Api/Keys/Refusal.antt =====
-- A key that apps/api/src/employee-keys.service.ts revoked, at the budget services of
-- packages/quota/src.
use ucli_server.Base.{
  ℕ, ◌≡◌, refl, subst, Bool, true, false, ◌||◌, Option, some, List, [], ◌∷◌, ◌==◌, arith, is_some,
  is_none, ◌≢◌, inl, inr, Bool-cases, ==_iff, ◌&&◌, if◌then◌else◌,
}
use ucli_server.Base.Lists.{any}
use ucli_server.Base.Table.{find?, find?-key, find?-passes}
use ucli_server.Budget.Ledger.{Db, EmployeeKey, Identity, Reservation, api_key, is_api_key}
use ucli_server.Budget.Ledger.Store.{Calendar, Fingerprint}
use ucli_server.Budget.Result.{ok, require-eq-ok, require, unauthorized}
use ucli_server.Budget.Ensures.{Ensures, Ensures-bind}
use ucli_server.Budget.Group.Reserve.{
  ReserveInput, reserve, assert_live_key, is_live_key, matches_id,
}
use ucli_server.Api.Keys.{Session, find_key, revoke}
use ucli_server.Api.Keys.Rows.{HasIds}
use ucli_server.Api.Keys.Lifecycle.{Call, run_calls, is_closed, closed-Evolves}
use ucli_server.Api.Keys.History.{run_calls-Evolves, run_calls-HasIds, revoke-Revoked}

any-find? :
    {A : Type 0} (p : A → Bool) (xs : List A) → any p xs ≡ true → (x : A) × (find? p xs ≡ some x)
any-find? p [] h = absurd (cc)
any-find? p (x ∷ xs) h = elim (Bool-cases (p x)) [
  | inl e ↦ (x, rw e refl)
  | inr e ↦ let rest = any-find? p xs (rw (← h, e) refl) in (rest.0, rw e rest.1)
]

live_test :
    (id a b c d e : Bool) (revoked deleted : Option ℕ)
    → (id && a && b && c && is_none revoked && is_none deleted && d && e) ≡ true
    → (id ≡ true) × ((is_some revoked || is_some deleted) ≡ false)
live_test id a b c d e revoked deleted h = (ground arith, ground arith)

-- A live key for a request that names its key is that key, and open.
live_key-open :
    (identity : Identity) (now k : ℕ) (x : EmployeeKey)
    → identity.api_key_id ≡ some k
    → is_live_key identity now x ≡ true
    → (x.id ≡ k) × (is_closed x ≡ false)
unfolding is_live_key
live_key-open identity now k x e h =
    let both =
      live_test (matches_id identity.api_key_id x.id) _ _ _ _ _ x.revoked_at x.deleted_at h in
    ((==_iff x.id k).0 (subst (λ o. matches_id o x.id ≡ true) e both.0), both.1)

no_live_key :
    (db : Db) (identity : Identity) (now k : ℕ) (row : EmployeeKey)
    → HasIds db
    → find_key db k ≡ some row
    → is_closed row ≡ true
    → identity.api_key_id ≡ some k
    → any (is_live_key identity now) db.keys ≡ true
    → ⊥
unfolding find_key
no_live_key db identity now k row ids here closed e live =
    let found = any-find? (is_live_key identity now) db.keys live in
    let x = found.0 in
    let live_x =
      live_key-open identity now k x e
        (find?-passes (is_live_key identity now) db.keys x found.1) in
    let self : find? (λ y. y.id == x.id) db.keys ≡ some x =
      find?-key (λ y. y.id) (is_live_key identity now) db.keys x ids found.1 in
    let at_k : find? (λ y. y.id == k) db.keys ≡ some x =
      subst (λ i. find? (λ y. y.id == i) db.keys ≡ some x) live_x.0 self in
    let same : x ≡ row = cc in
    let is_open : is_closed row ≡ false = subst (λ y. is_closed y ≡ false) same live_x.1 in
    absurd (cc)

reserve-refused :
    (calendar : Calendar) (fingerprint : Fingerprint) (db : Db) (input : ReserveInput)
    (now new_entry new_period k : ℕ) (row : EmployeeKey)
    → HasIds db
    → find_key db k ≡ some row
    → is_closed row ≡ true
    → input.identity.credential_type ≡ api_key
    → input.identity.api_key_id ≡ some k
    → Ensures (λ res. ⊥) (reserve calendar fingerprint db input now new_entry new_period)
unfolding reserve assert_live_key
reserve-refused calendar fingerprint db input now new_entry new_period k row ids here closed c e =
    Ensures-bind _ _ λ amount h. Ensures-bind _ _ λ group h₁. Ensures-bind _ _ λ u h₂.
      Ensures-bind _ _ λ v h₃.
        absurd (no_live_key db input.identity now k row ids here closed e (key_was_live v h₃))
  where
    key_was_live :
        (v : Unit {0})
        → assert_live_key db input.identity now ≡ ok v
        → any (is_live_key input.identity now) db.keys ≡ true
    key_was_live v h₃ =
        let tests = require (any (is_live_key input.identity now) db.keys) unauthorized in
        require-eq-ok (any (is_live_key input.identity now) db.keys) unauthorized
          (subst (λ kind. (if is_api_key kind then tests else ok tt) ≡ ok v) c h₃)

-- In a database where the identifiers of keys are distinct, once a key was revoked, by an administrator
-- or by its owner, no reservation in a group that names the key as its credential succeeds, whatever
-- calls on keys follow and whenever it is tried.
pub revoke-refuses :
    (calendar : Calendar) (fingerprint : Fingerprint) (db : Db) (actor : Session) (k : ℕ)
    (own_only : Bool) (at : ℕ) (key : EmployeeKey) (later : Db) (cs : List (Session × Call))
    (input : ReserveInput) (now new_entry new_period : ℕ) (res : Reservation × Db)
    → HasIds db
    → revoke db actor k own_only at ≡ ok (key, later)
    → input.identity.credential_type ≡ api_key
    → input.identity.api_key_id ≡ some k
    → reserve calendar fingerprint (run_calls later cs) input now new_entry new_period ≢ ok res
revoke-refuses calendar fingerprint db actor k own_only at key later cs input now new_entry
      new_period res ids done c e granted =
    let first = (revoke-Revoked db actor k own_only at ids).at (key, later) done in
    let row = run_calls-Evolves later cs first.0 k key first.1 in
    (reserve-refused calendar fingerprint (run_calls later cs) input now new_entry new_period k
        row.0 (run_calls-HasIds later cs first.0) row.1
        (closed-Evolves key row.0 row.2 (rw first.2 refl)) c e).at
      res granted
