-- ===== src/Api/Keys/History.antt =====
-- Each call of apps/api/src/employee-keys.service.ts that changes keys, and sequences of them.
use ucli_server.Base.{
  ℕ, ◌≡◌, refl, Bool, true, false, none, some, List, [], ◌∷◌, is_some, or_else, if◌then◌else◌,
}
use ucli_server.Budget.Ledger.{Db, EmployeeKey, KeyAction}
use ucli_server.Budget.Ledger.Commit.{committed}
use ucli_server.Budget.Result.{Result, ok, err}
use ucli_server.Budget.Ensures.{
  Ensures, Ensures-ok, Ensures-bind, Ensures-then, Ensures-require, Ensures-map,
}
use ucli_server.Api.Keys.{
  Session, NewSecret, CreateInput, UpdateInput, find_key, create, create_in, update, set_enabled,
  revoke, delete, assert_mutable, audit_key, mutate, new_expiry, Change, delete_change,
  enable_change, revoke_change, update_change,
}
use ucli_server.Api.Keys.Rows.{HasIds, Rows, mutate-Rows, insert_key-Rows, mutate-found}
use ucli_server.Api.Keys.Lifecycle.{
  Call, call, run_calls, Evolves, Evolves-trans, Evolves-refl, revoked, some-or_else, Spares,
  Changes, Changes-refl, Kept, target-Spares, open-Evolves, create_call, update_call, enable_call,
  revoke_call, delete_call,
}

module _ (db : Db) (actor : Session) (ids : HasIds db) where
  create-Kept :
      (account : ℕ) (input : CreateInput) (secret : NewSecret) (now new_id : ℕ)
      → Ensures (Kept db actor) (create db actor account input secret now new_id)
  unfolding create create_in find_key audit_key
  create-Kept account input secret now new_id = Ensures-bind _ _ λ a h. Ensures-require _ _ _ λ h₁.
      Ensures-bind _ _ λ project h₂. Ensures-bind _ _ λ expires h₃. Ensures-bind _ _ λ p h₄.
        Ensures-require _ _ _ λ h₅. Ensures-bind _ _ λ m h₆. Ensures-bind _ _ λ g h₇.
          Ensures-then _ _ (insert_key-Rows (Changes actor) (Changes-refl actor) db _ ids)
            λ d e kept. Ensures-ok _ kept

  mutated :
      (k : ℕ) (action : KeyAction) (change : Change) (own_only : Bool)
      → ((row : EmployeeKey) → Ensures (λ new. (new.id ≡ row.id) × Evolves row new) (change db row))
      → Ensures (Kept db actor) (mutate db actor k action change own_only)
  mutated k action change own_only evolves =
      mutate-Rows (Changes actor) (Changes-refl actor) db actor k action change own_only ids
        λ row t may.
          Ensures-map (change db row) (evolves row)
            λ new e. Ensures-ok new (e.0, (e.1, target-Spares actor own_only k row new t may))

  update-Kept :
      (k : ℕ) (input : UpdateInput) (now : ℕ)
      → Ensures (Kept db actor) (update db actor k input now)
  unfolding update update_change assert_mutable
  update-Kept k input now = Ensures-bind _ _ λ expires h.
      mutated k _ (update_change input expires) false λ row. Ensures-require _ _ _ λ live.
        Ensures-ok _ (
          refl,
          open-Evolves row (or_else input.name row.name) (new_expiry expires row.expires_at)
              row.disabled_at live,
        )

  set_enabled-Kept :
      (k : ℕ) (enabled : Bool) (now : ℕ)
      → Ensures (Kept db actor) (set_enabled db actor k enabled now)
  unfolding set_enabled enable_change assert_mutable
  set_enabled-Kept k enabled now = mutated k _ (enable_change enabled now) false λ row.
      Ensures-require _ _ _ λ live. Ensures-bind _ _ λ a h.
        Ensures-ok _
          (refl, open-Evolves row row.name row.expires_at (if enabled then none else some now) live)

  revoke-Kept :
      (k : ℕ) (own_only : Bool) (now : ℕ) → Ensures (Kept db actor) (revoke db actor k own_only now)
  unfolding revoke revoke_change
  revoke-Kept k own_only now =
      mutated k _ (revoke_change now) own_only
        λ row. Ensures-ok _ (refl, revoked row row.deleted_at now (λ h. refl))

  delete-Kept : (k now : ℕ) → Ensures (Kept db actor) (delete db actor k now)
  unfolding delete delete_change
  delete-Kept k now = mutated k _ (delete_change now) false λ row. Ensures-ok _ (
    refl,
    revoked row (some (or_else row.deleted_at now)) now (λ h. some-or_else row.deleted_at now h),
  )

  -- One call leaves every key there.
  call-Kept : (c : Call) → Ensures (Kept db actor) (call db actor c)
  unfolding call
  call-Kept (create_call account input secret now new_id) =
      create-Kept account input secret now new_id
  call-Kept (update_call k input now) = update-Kept k input now
  call-Kept (enable_call k enabled now) = set_enabled-Kept k enabled now
  call-Kept (revoke_call k own_only now) = revoke-Kept k own_only now
  call-Kept (delete_call k now) = delete-Kept k now

committed-Rows :
    (db : Db) (actor : Session) (m : Result (EmployeeKey × Db))
    → HasIds db
    → Ensures (Kept db actor) m
    → HasIds (committed db m) × Rows (Changes actor) db (committed db m)
unfolding committed
committed-Rows db actor (ok (k, d)) ids kept = kept.at (k, d) refl
committed-Rows db actor (err x) ids kept = (ids, λ k r h. (r, h, Changes-refl actor r))

-- One call of any kind, that may throw, in a database where the identifiers of keys are distinct: every
-- key that was there is there, keys of another organization are as they were, and so are keys of
-- another account where the caller is no administrator.
pub call-Spares :
    (db : Db) (actor : Session) (c : Call)
    → HasIds db
    → Rows (Spares actor) db (committed db (call db actor c))
call-Spares db actor c ids k r h =
    let kept = (committed-Rows db actor (call db actor c) ids (call-Kept db actor ids c)).1 k r h in
    (kept.0, kept.1, kept.2.1)

-- After any sequence of calls by any callers, failing ones included, in a database where the
-- identifiers of keys are distinct: every key that was there is there with its organization, account,
-- group, project, and the hash and the encrypted form of its secret; once it was revoked or deleted it stays so since the same time, and its
-- expiry and whether it is disabled no longer change.
pub run_calls-Evolves :
    (db : Db) (cs : List (Session × Call)) → HasIds db → Rows Evolves db (run_calls db cs)
unfolding run_calls
run_calls-Evolves db [] ids k r h = (r, h, Evolves-refl r)
run_calls-Evolves db (c ∷ cs) ids k r h =
    let first = committed-Rows db c.0 (call db c.0 c.1) ids (call-Kept db c.0 ids c.1) in
    let one = first.1 k r h in
    let later = run_calls-Evolves (committed db (call db c.0 c.1)) cs first.0 k one.0 one.1 in
    (later.0, later.1, Evolves-trans r one.0 later.0 one.2.0 later.2)

-- Calls keep the identifiers distinct.
pub run_calls-HasIds : (db : Db) (cs : List (Session × Call)) → HasIds db → HasIds (run_calls db cs)
unfolding run_calls
run_calls-HasIds db [] ids = ids
run_calls-HasIds db (c ∷ cs) ids =
    run_calls-HasIds (committed db (call db c.0 c.1)) cs
      (committed-Rows db c.0 (call db c.0 c.1) ids (call-Kept db c.0 ids c.1)).0

pub revoke-Revoked :
    (db : Db) (actor : Session) (k : ℕ) (own_only : Bool) (now : ℕ)
    → HasIds db
    → Ensures
        (λ res. HasIds res.1 × (find_key res.1 k ≡ some res.0) × (is_some res.0.revoked_at ≡ true))
        (revoke db actor k own_only now)
unfolding revoke revoke_change
revoke-Revoked db actor k own_only now ids = record {
  at = λ res e.
      let kept = (revoke-Kept db actor ids k own_only now).at res e in
      let written =
        (mutate-found db actor k _ (revoke_change now) own_only
            (λ new. is_some new.revoked_at ≡ true) ids (λ row. Ensures-ok _ (refl, refl))).at
          res e in
      (kept.0, written.0, written.1);
}
