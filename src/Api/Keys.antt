-- ===== src/Api/Keys.antt =====
-- apps/api/src/employee-keys.service.ts: the operations that change an employee's API key. The rows are
-- those of the budget ledgers' database, where the gateway finds the key of a request. The secret and
-- its encrypted form come from packages/security and are arguments, as are the time of a call and the
-- identifier of a new row.
pub mod Reveal
pub mod Listing
pub mod Rows
pub mod Lifecycle
pub mod History
pub mod Refusal
pub mod Throttle
pub mod RoundTrip
mod Examples
use ucli_server.Base.{
  ℕ, Bool, true, false, ◌&&◌, ◌||◌, not, Option, none, some, List, [], ◌∷◌, String, ltb, leb, ◌==◌,
  if◌then◌else◌, is_none, is_some, or_else,
}
use ucli_server.Base.Lists.{any, filter}
use ucli_server.Base.Table.{find?, replace}
use ucli_server.Budget.Ledger.{
  Db, Group, Project, ProjectMember, EmployeeKey, KeyAction, Audit, Identity, Role, Principal,
  is_admin, key_created, key_updated, key_enabled, key_disabled, key_revoked, key_deleted,
  key_changed, OrgType, executive, functional, regional, legacy_project, api_key, ProjectRole,
  viewer,
}
use ucli_server.Budget.Ledger.Store.{find_group, same_text}
use ucli_server.Budget.Group.Rules.{lock_usage_group}
use ucli_server.Budget.Group.Reserve.{assert_active_group_member}
use ucli_server.Budget.Project.Rules.{lock_project, is_active}
use ucli_server.Budget.Result.{
  Result, ok, err, require, or_throw, ◌>>=◌, ◌>>◌, bad_request, forbidden, unauthorized, not_found,
  conflict, unique_violation,
}

-- `AuthPrincipal`.
pub record Session : Type 0 where
  pub sub : ℕ
  pub organization_id : ℕ
  pub device_id : Option ℕ
  pub role : Role

-- A field of an input that may be absent or null.
pub data Field {ℓ} (A : Type ℓ) : Type ℓ where
  absent null : Field A
  given : A → Field A

-- `expiry`, on a date as `Date` reads it: `none` is a text that is no date.
unfoldable pub expiry : ℕ → Field (Option ℕ) → Result (Field ℕ)
expiry now absent = ok absent
expiry now null = ok null
expiry now (given none) = err bad_request
expiry now (given (some t)) = do require (ltb now t) bad_request; ok (given t)

unfoldable pub assert_admin : Session → Result (Unit {0})
assert_admin actor = require (is_admin actor.role) forbidden

unfoldable pub assert_web_session : Session → Result (Unit {0})
assert_web_session actor = require (is_none actor.device_id) forbidden

unfoldable pub find_key : Db → ℕ → Option EmployeeKey
find_key db k = find? (λ r. r.id == k) db.keys

-- `audit`.
unfoldable pub audit_key : Db → Session → KeyAction → ℕ → Db
audit_key db actor action k = record db { audits = key_changed action k actor.sub ∷ db.audits }

abbrev pub is_area : OrgType → Bool
is_area legacy_project = false
is_area _ = true

-- The conditions on the region of a project.
unfoldable pub region_is_open : Option Group → Bool
region_is_open none = false
region_is_open (some g) =
    g.enabled && is_none g.archived_at && g.organization_enabled && is_area g.org_type

abbrev pub not_viewer : ProjectRole → Bool
not_viewer viewer = false
not_viewer _ = true

-- The member that `create` and `setEnabled` ask for.
unfoldable pub is_working_member : ℕ → ℕ → ProjectMember → Bool
is_working_member project account m =
    m.project_id == project
    && m.account_id == account
    && not_viewer m.role
    && m.membership_active
    && m.account_active

unfoldable pub assert_working_member : Db → ℕ → ℕ → Result (Unit {0})
unfolding is_working_member
assert_working_member db project account =
    require (any (is_working_member project account) db.project_members) forbidden

-- What `createOpaqueToken`, `encryptSecret`, `hashOpaqueToken` and `opaqueTokenHint` make.
pub record NewSecret : Type 0 where
  pub secret : String
  pub hash : String
  pub hint : String
  pub ciphertext : String
  pub iv : String
  pub tag : String

-- `CreateEmployeeKeyDto`, with whether the body names a group.
pub record CreateInput : Type 0 where
  pub has_group_id : Bool
  pub project_id : Option ℕ
  pub name : String
  pub expires_at : Field (Option ℕ)

unfoldable pub given_or_null : Field ℕ → Option ℕ
given_or_null (given t) = some t
given_or_null _ = none

-- The row that `create` writes.
unfoldable pub created_key :
    Session → ℕ → Project → CreateInput → Field ℕ → NewSecret → ℕ → ℕ → EmployeeKey
unfolding given_or_null
created_key actor account project input expires secret now new_id = record {
  id = new_id;
  organization_id = actor.organization_id;
  account_id = account;
  group_id = project.region_id;
  project_id = some project.id;
  name = input.name;
  secret_hash = secret.hash;
  secret_hint = secret.hint;
  secret_ciphertext = some secret.ciphertext;
  secret_iv = some secret.iv;
  secret_tag = some secret.tag;
  created_by_id = actor.sub;
  created_at = now;
  revoked_at = none;
  deleted_at = none;
  disabled_at = none;
  expires_at = given_or_null expires;
}

-- An insert, under the primary key and the unique index on the hash.
unfoldable pub insert_key : Db → EmployeeKey → Result Db
unfolding find_key
insert_key db k = do
  require (is_none (find_key db k.id)) unique_violation
  require (not (any (λ r. same_text (some r.secret_hash) (some k.secret_hash)) db.keys))
      unique_violation
  ok (record db { keys = k ∷ db.keys })

-- The transaction of `create`.
unfoldable pub create_in :
    Db → Session → ℕ → CreateInput → ℕ → Field ℕ → NewSecret → ℕ → ℕ → Result (EmployeeKey × Db)
unfolding region_is_open assert_working_member created_key insert_key audit_key lock_project
    find_group lock_usage_group
create_in db actor account input project_id expires secret now new_id = do
  project ← lock_project db actor.organization_id project_id
  require (is_active project.status && region_is_open (find_group db project.region_id)) not_found
  assert_working_member db project.id account
  group ← lock_usage_group db actor.organization_id project.region_id
  let k = created_key actor account project input expires secret now new_id
  db₁ ← insert_key db k
  ok (k, audit_key db₁ actor key_created k.id)

-- `create`.
unfoldable pub create :
    Db → Session → ℕ → CreateInput → NewSecret → ℕ → ℕ → Result (EmployeeKey × Db)
unfolding assert_admin expiry create_in
create db actor account input secret now new_id = do
  assert_admin actor
  require (not input.has_group_id) bad_request
  project_id ← or_throw input.project_id bad_request
  expires ← expiry now input.expires_at
  create_in db actor account input project_id expires secret now new_id

-- The `where` of `mutate`.
unfoldable pub is_target : Session → Bool → ℕ → EmployeeKey → Bool
is_target actor own_only k r =
    r.id == k
    && r.organization_id == actor.organization_id
    && (if own_only then r.account_id == actor.sub else true)

-- What a change writes; the row keeps its identifier.
abbrev pub Change : Type 0
Change = Db → EmployeeKey → Result EmployeeKey

unfoldable pub put_key : Db → EmployeeKey → Db
put_key db k = record db { keys = replace (λ r. r.id == k.id) k db.keys }

-- `mutate`.
unfoldable pub mutate : Db → Session → ℕ → KeyAction → Change → Bool → Result (EmployeeKey × Db)
unfolding assert_web_session assert_admin is_target put_key audit_key lock_usage_group
mutate db actor k action change own_only = do
  if own_only then assert_web_session actor else assert_admin actor
  row ← or_throw (find? (is_target actor own_only k) db.keys) not_found
  group ← lock_usage_group db actor.organization_id row.group_id
  new ← change db row
  ok (new, audit_key (put_key db new) actor action k)

unfoldable pub assert_mutable : EmployeeKey → Result (Unit {0})
assert_mutable k = require (not (is_some k.revoked_at || is_some k.deleted_at)) conflict

-- `UpdateEmployeeKeyDto`.
pub record UpdateInput : Type 0 where
  pub name : Option String
  pub expires_at : Field (Option ℕ)

unfoldable pub new_expiry : Field ℕ → Option ℕ → Option ℕ
new_expiry absent old = old
new_expiry null old = none
new_expiry (given t) old = some t

unfoldable pub update_change : UpdateInput → Field ℕ → Change
unfolding assert_mutable new_expiry
update_change input expires db r = do
  assert_mutable r
  ok (record r { name = or_else input.name r.name; expires_at = new_expiry expires r.expires_at })

-- `update`.
unfoldable pub update : Db → Session → ℕ → UpdateInput → ℕ → Result (EmployeeKey × Db)
unfolding expiry mutate update_change
update db actor k input now = do
  expires ← expiry now input.expires_at
  mutate db actor k key_updated (update_change input expires) false

-- The identity that `assertActiveGroupMember` reads from a key.
unfoldable pub key_identity : EmployeeKey → Identity
key_identity k = record {
  sub = k.account_id;
  organization_id = k.organization_id;
  group_id = k.group_id;
  credential_type = api_key;
  api_key_id = some k.id;
  device_id = none;
}

-- The test of `setEnabled` before a key is enabled.
unfoldable pub assert_enablable : Db → EmployeeKey → Result (Unit {0})
unfolding assert_working_member assert_active_group_member key_identity
assert_enablable db k = elim k.project_id [
  | some project ↦ assert_working_member db project k.account_id
  | none ↦ assert_active_group_member db (key_identity k)
]

unfoldable pub enable_change : Bool → ℕ → Change
unfolding assert_mutable assert_enablable
enable_change enabled now db r = do
  assert_mutable r
  if enabled then assert_enablable db r else ok tt
  ok (record r { disabled_at = if enabled then none else some now })

-- `setEnabled`.
unfoldable pub set_enabled : Db → Session → ℕ → Bool → ℕ → Result (EmployeeKey × Db)
unfolding mutate enable_change
set_enabled db actor k enabled now =
    mutate db actor k (if enabled then key_enabled else key_disabled) (enable_change enabled now)
      false

unfoldable pub revoke_change : ℕ → Change
revoke_change now db r = ok (record r { revoked_at = some (or_else r.revoked_at now) })

-- `revoke`.
unfoldable pub revoke : Db → Session → ℕ → Bool → ℕ → Result (EmployeeKey × Db)
unfolding mutate revoke_change
revoke db actor k own_only now = mutate db actor k key_revoked (revoke_change now) own_only

unfoldable pub delete_change : ℕ → Change
delete_change now db r = ok (record r {
  revoked_at = some (or_else r.revoked_at now);
  deleted_at = some (or_else r.deleted_at now);
})

-- `delete`.
unfoldable pub delete : Db → Session → ℕ → ℕ → Result (EmployeeKey × Db)
unfolding mutate delete_change
delete db actor k now = mutate db actor k key_deleted (delete_change now) false
