-- ===== src/Api/Keys/Rows.antt =====
-- What `mutate` and `create` of apps/api/src/employee-keys.service.ts do to the other keys.
use ucli_server.Base.{
  ℕ, ◌≡◌, refl, sym, ◌∙◌, subst, inl, inr, Bool, true, false, ◌&&◌, Option, none, some, List, ◌∷◌,
  ◌==◌, if◌then◌else◌, arith, Bool-cases, is_none, ==_iff, ==-self,
}
use ucli_server.Base.Table.{
  find?, replace, Distinct, Distinct-replace, find?-key, find?-replace, find?-passes,
  find?-replace_self,
}
use ucli_server.Budget.Ledger.{Db, EmployeeKey, KeyAction, is_admin}
use ucli_server.Budget.Result.{ok, or_throw-eq-ok, require-eq-ok}
use ucli_server.Budget.Ensures.{Ensures, Ensures-ok, Ensures-bind, Ensures-then, Ensures-require}
use ucli_server.Api.Keys.{
  Session, find_key, insert_key, put_key, audit_key, mutate, assert_admin, assert_web_session,
  is_target, Change,
}

-- The identifiers of the keys are a primary key.
abbrev pub HasIds : Db → Type 0
HasIds db = Distinct (λ k. k.id) db.keys

-- Every key that is there is still there, and its row is related to the old one.
abbrev pub Rows : (EmployeeKey → EmployeeKey → Type 0) → Db → Db → Type 0
Rows Q db later =
    (k : ℕ) (r : EmployeeKey)
    → find_key db k ≡ some r
    → (new : EmployeeKey) × (find_key later k ≡ some new) × Q r new

module _ (Q : EmployeeKey → EmployeeKey → Type 0) (Q-refl : (r : EmployeeKey) → Q r r) where
  put_key-Rows :
      (db : Db) (row new : EmployeeKey) (d : Db)
      → HasIds db
      → find_key db row.id ≡ some row
      → new.id ≡ row.id
      → Q row new
      → d.keys ≡ (put_key db new).keys
      → HasIds d × Rows Q db d
  unfolding find_key put_key
  put_key-Rows db row new d ids here same q e = (
    rw e (Distinct-replace (λ k. k.id) new db.keys ids),
    λ k r h. elim (Bool-cases (new.id == k)) [
      | inl t ↦
          let key : row.id ≡ k = sym same ∙ (==_iff new.id k).0 t in
          let found : find? (λ x. x.id == k) db.keys ≡ some row =
            subst (λ i. find? (λ x. x.id == i) db.keys ≡ some row) key here in
          let one : row ≡ r = cc in (new, after k t, subst (λ o. Q o new) one q)
      | inr t ↦ (r, other k t ∙ h, Q-refl r)
    ],
  )
    where
      spot : find? (λ x. x.id == new.id) db.keys ≡ some row
      spot = rw same here

      after : (k : ℕ) → (new.id == k) ≡ true → find? (λ x. x.id == k) d.keys ≡ some new
      after k t = rw (e, find?-replace (λ x. x.id) k new db.keys row spot, t) refl

      other :
          (k : ℕ)
          → (new.id == k) ≡ false
          → find? (λ x. x.id == k) d.keys ≡ find? (λ x. x.id == k) db.keys
      other k t = rw (e, find?-replace (λ x. x.id) k new db.keys row spot, t) refl

  pub mutate-Rows :
      (db : Db) (actor : Session) (k : ℕ) (action : KeyAction) (change : Change) (own_only : Bool)
      → HasIds db
      → ((row : EmployeeKey)
          → is_target actor own_only k row ≡ true
          → (own_only ≡ false → is_admin actor.role ≡ true)
          → Ensures (λ new. (new.id ≡ row.id) × Q row new) (change db row))
      → Ensures (λ res. HasIds res.1 × Rows Q db res.1) (mutate db actor k action change own_only)
  unfolding mutate assert_admin find_key audit_key
  mutate-Rows db actor k action change own_only ids changed = Ensures-bind _ _ λ a may.
      Ensures-bind _ _ λ row found.
        let seen = or_throw-eq-ok _ _ row found in
        Ensures-bind _ _ λ group lock.
          Ensures-then (change db row) _
            (changed row (find?-passes (is_target actor own_only k) db.keys row seen)
              (admitted own_only a may))
            λ new e q. Ensures-ok _ (
              put_key-Rows db row new (audit_key (put_key db new) actor action k) ids
                (at_id (find?-key (λ x. x.id) (is_target actor own_only k) db.keys row ids seen))
                q.0 q.1 refl)
    where
      at_id :
          {row : EmployeeKey}
          → find? (λ x. x.id == row.id) db.keys ≡ some row
          → find_key db row.id ≡ some row
      at_id h = h

      admitted :
          (own : Bool) (a : Unit {0})
          → (if own then assert_web_session actor else assert_admin actor) ≡ ok a
          → own ≡ false
          → is_admin actor.role ≡ true
      admitted true a h e = absurd (cc)
      admitted false a h e = require-eq-ok _ _ h

  pub insert_key-Rows :
      (db : Db) (new : EmployeeKey)
      → HasIds db
      → Ensures (λ d. HasIds d × Rows Q db d) (insert_key db new)
  unfolding insert_key find_key
  insert_key-Rows db new ids = Ensures-require _ _ _ λ fresh.
      Ensures-require _ _ _
        λ apart. Ensures-ok _ ((none_of _ fresh, ids), λ k r h. (r, kept k r fresh h, Q-refl r))
    where
      none_of : {A : Type 0} (o : Option A) → is_none o ≡ true → o ≡ none
      none_of none e = refl
      none_of (some a) e = absurd (cc)

      kept :
          (k : ℕ) (r : EmployeeKey)
          → is_none (find? (λ x. x.id == new.id) db.keys) ≡ true
          → find? (λ x. x.id == k) db.keys ≡ some r
          → find? (λ x. x.id == k) (new ∷ db.keys) ≡ some r
      kept k r e h = elim (Bool-cases (new.id == k)) [
        | inr t ↦ rw (t, find?) h
        | inl t ↦
            let key : k ≡ new.id = sym ((==_iff new.id k).0 t) in
            let there : find? (λ x. x.id == new.id) db.keys ≡ some r =
              subst (λ i. find? (λ x. x.id == i) db.keys ≡ some r) key h in
            let gone = none_of _ e in absurd (cc)
      ]

replace-same :
    (xs : List EmployeeKey) (row new : EmployeeKey) (k : ℕ)
    → row.id ≡ k
    → new.id ≡ row.id
    → find? (λ x. x.id == row.id) xs ≡ some row
    → find? (λ x. x.id == k) (replace (λ x. x.id == new.id) new xs) ≡ some new
replace-same xs row new k at same here =
    let spot : find? (λ x. x.id == new.id) xs ≡ some row = rw same here in
    subst (λ i. find? (λ x. x.id == i) (replace (λ x. x.id == new.id) new xs) ≡ some new)
      (same ∙ at) (find?-replace_self (λ x. x.id == new.id) new xs row spot (==-self new.id))

target-id : (id org own : Bool) → (id && org && own) ≡ true → id ≡ true
target-id id org own h = ground arith

-- A call that returned a key wrote it.
pub mutate-found :
    (db : Db) (actor : Session) (k : ℕ) (action : KeyAction) (change : Change) (own_only : Bool)
    (P : EmployeeKey → Type 0)
    → HasIds db
    → ((row : EmployeeKey) → Ensures (λ new. (new.id ≡ row.id) × P new) (change db row))
    → Ensures
        (λ res. (find_key res.1 k ≡ some res.0) × P res.0)
        (mutate db actor k action change own_only)
unfolding mutate find_key audit_key put_key is_target
mutate-found db actor k action change own_only P ids changed = Ensures-bind _ _ λ a may.
    Ensures-bind _ _ λ row found.
      let seen = or_throw-eq-ok _ _ row found in
      let self = find?-key (λ x. x.id) (is_target actor own_only k) db.keys row ids seen in
      let target = find?-passes (is_target actor own_only k) db.keys row seen in
      Ensures-bind _ _ λ group lock. Ensures-then (change db row) _ (changed row) λ new e q.
        Ensures-ok (new, audit_key (put_key db new) actor action k)
          (
            replace-same db.keys row new k
                ((==_iff row.id k).0
                  (target-id (row.id == k) (row.organization_id == actor.organization_id) _ target))
                q.0 self,
            q.1,
          )
