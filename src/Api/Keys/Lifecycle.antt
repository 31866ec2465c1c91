-- ===== src/Api/Keys/Lifecycle.antt =====
-- Sequences of calls of apps/api/src/employee-keys.service.ts that change keys.
use ucli_server.Base.{
  ℕ, ◌≡◌, refl, ◌∙◌, Bool, true, false, ◌||◌, not, Option, none, some, List, [], ◌∷◌, ◌==◌, arith,
  is_some, or_else, if◌then◌else◌, String, ◌&&◌,
}
use ucli_server.Budget.Ledger.{Db, EmployeeKey, is_admin}
use ucli_server.Budget.Ledger.Commit.{committed}
use ucli_server.Budget.Result.{Result}
use ucli_server.Api.Keys.{
  Session, NewSecret, CreateInput, UpdateInput, create, update, set_enabled, revoke, delete,
  is_target,
}
use ucli_server.Api.Keys.Rows.{HasIds, Rows}

-- A call that changes keys, with the time and what is made for it.
pub data Call : Type 0 where
  create_call : ℕ → CreateInput → NewSecret → ℕ → ℕ → Call
  update_call : ℕ → UpdateInput → ℕ → Call
  enable_call : ℕ → Bool → ℕ → Call
  revoke_call : ℕ → Bool → ℕ → Call
  delete_call : ℕ → ℕ → Call

unfoldable pub call : Db → Session → Call → Result (EmployeeKey × Db)
unfolding create update set_enabled revoke delete
call db actor (create_call account input secret now new_id) =
    create db actor account input secret now new_id
call db actor (update_call k input now) = update db actor k input now
call db actor (enable_call k enabled now) = set_enabled db actor k enabled now
call db actor (revoke_call k own_only now) = revoke db actor k own_only now
call db actor (delete_call k now) = delete db actor k now

unfoldable pub run_calls : Db → List (Session × Call) → Db
unfolding call committed
run_calls db [] = db
run_calls db (c ∷ cs) = run_calls (committed db (call db c.0 c.1)) cs

abbrev pub is_closed : EmployeeKey → Bool
is_closed k = is_some k.revoked_at || is_some k.deleted_at

-- What never changes of a key, and what no longer changes once it is revoked or deleted.
pub record Evolves (old new : EmployeeKey) : Type 0 where
  pub same_id : new.id ≡ old.id
  pub same_organization : new.organization_id ≡ old.organization_id
  pub same_account : new.account_id ≡ old.account_id
  pub same_group : new.group_id ≡ old.group_id
  pub same_project : new.project_id ≡ old.project_id
  pub same_hash : new.secret_hash ≡ old.secret_hash
  pub same_ciphertext : new.secret_ciphertext ≡ old.secret_ciphertext
  pub same_iv : new.secret_iv ≡ old.secret_iv
  pub same_tag : new.secret_tag ≡ old.secret_tag
  pub revoked_stays : is_some old.revoked_at ≡ true → new.revoked_at ≡ old.revoked_at
  pub deleted_stays : is_some old.deleted_at ≡ true → new.deleted_at ≡ old.deleted_at
  pub expiry_stays : is_closed old ≡ true → new.expires_at ≡ old.expires_at
  pub disabled_stays : is_closed old ≡ true → new.disabled_at ≡ old.disabled_at

-- Keys of another organization, and for one who is no administrator keys of another account, are
-- left as they are.
pub record Spares (actor : Session) (old new : EmployeeKey) : Type 0 where
  pub tenant : (old.organization_id == actor.organization_id) ≡ false → new ≡ old
  pub outsider : is_admin actor.role ≡ false → (old.account_id == actor.sub) ≡ false → new ≡ old

abbrev pub Changes : Session → EmployeeKey → EmployeeKey → Type 0
Changes actor old new = Evolves old new × Spares actor old new

pub Evolves-refl : (r : EmployeeKey) → Evolves r r
Evolves-refl r = record {
  same_id = refl;
  same_organization = refl;
  same_account = refl;
  same_group = refl;
  same_project = refl;
  same_hash = refl;
  same_ciphertext = refl;
  same_iv = refl;
  same_tag = refl;
  revoked_stays = λ h. refl;
  deleted_stays = λ h. refl;
  expiry_stays = λ h. refl;
  disabled_stays = λ h. refl;
}

pub closed-Evolves : (a b : EmployeeKey) → Evolves a b → is_closed a ≡ true → is_closed b ≡ true
closed-Evolves a b e h = let r = e.revoked_stays in let d = e.deleted_stays in ground arith

pub Evolves-trans : (a b c : EmployeeKey) → Evolves a b → Evolves b c → Evolves a c
Evolves-trans a b c h k = record {
  same_id = k.same_id ∙ h.same_id;
  same_organization = k.same_organization ∙ h.same_organization;
  same_account = k.same_account ∙ h.same_account;
  same_group = k.same_group ∙ h.same_group;
  same_project = k.same_project ∙ h.same_project;
  same_hash = k.same_hash ∙ h.same_hash;
  same_ciphertext = k.same_ciphertext ∙ h.same_ciphertext;
  same_iv = k.same_iv ∙ h.same_iv;
  same_tag = k.same_tag ∙ h.same_tag;
  revoked_stays = λ t. k.revoked_stays (rw (h.revoked_stays t) t) ∙ h.revoked_stays t;
  deleted_stays = λ t. k.deleted_stays (rw (h.deleted_stays t) t) ∙ h.deleted_stays t;
  expiry_stays = λ t. k.expiry_stays (closed-Evolves a b h t) ∙ h.expiry_stays t;
  disabled_stays = λ t. k.disabled_stays (closed-Evolves a b h t) ∙ h.disabled_stays t;
}

pub Changes-refl : (actor : Session) (r : EmployeeKey) → Changes actor r r
Changes-refl actor r = (Evolves-refl r, record { tenant = λ h. refl; outsider = λ h k. refl })

tenant_test : (id org own : Bool) → (id && org && own) ≡ true → org ≡ false → ⊥
tenant_test id org own t h = ground arith

owner_test :
    (id org own account admin : Bool)
    → (id && org && (if own then account else true)) ≡ true
    → (own ≡ false → admin ≡ true)
    → admin ≡ false
    → account ≡ false
    → ⊥
owner_test id org own account admin t may h l = ground arith

-- The row that a call may change belongs to the caller's organization, and to the caller or to one
-- of the caller's staff.
pub target-Spares :
    (actor : Session) (own_only : Bool) (k : ℕ) (row new : EmployeeKey)
    → is_target actor own_only k row ≡ true
    → (own_only ≡ false → is_admin actor.role ≡ true)
    → Spares actor row new
unfolding is_target
target-Spares actor own_only k row new t may = record {
  tenant = λ h. absurd (tenant_test _ _ _ t h);
  outsider = λ h l. absurd (
      owner_test (row.id == k) (row.organization_id == actor.organization_id) own_only _ _ t may h
        l);
}

abbrev pub Kept : Db → Session → EmployeeKey × Db → Type 0
Kept db actor res = HasIds res.1 × Rows (Changes actor) db res.1

-- Writes on a key that is still open.
pub open-Evolves :
    (r : EmployeeKey) (name : String) (expires disabled : Option ℕ)
    → not (is_closed r) ≡ true
    → Evolves r (record r { name = name; expires_at = expires; disabled_at = disabled })
open-Evolves r name expires disabled h = record {
  same_id = refl;
  same_organization = refl;
  same_account = refl;
  same_group = refl;
  same_project = refl;
  same_hash = refl;
  same_ciphertext = refl;
  same_iv = refl;
  same_tag = refl;
  revoked_stays = λ k. refl;
  deleted_stays = λ k. refl;
  expiry_stays = λ k. absurd (ground arith);
  disabled_stays = λ k. absurd (ground arith);
}

-- A revocation, with or without a deletion.
pub some-or_else : (o : Option ℕ) (t : ℕ) → is_some o ≡ true → some (or_else o t) ≡ o
some-or_else none t h = absurd (cc)
some-or_else (some a) t h = refl

pub revoked :
    (r : EmployeeKey) (deleted : Option ℕ) (now : ℕ)
    → (is_some r.deleted_at ≡ true → deleted ≡ r.deleted_at)
    → Evolves r (record r { revoked_at = some (or_else r.revoked_at now); deleted_at = deleted })
revoked r deleted now h = record {
  same_id = refl;
  same_organization = refl;
  same_account = refl;
  same_group = refl;
  same_project = refl;
  same_hash = refl;
  same_ciphertext = refl;
  same_iv = refl;
  same_tag = refl;
  revoked_stays = λ k. some-or_else r.revoked_at now k;
  deleted_stays = h;
  expiry_stays = λ k. refl;
  disabled_stays = λ k. refl;
}
