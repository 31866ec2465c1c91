-- ===== src/Api/Groups.antt =====
-- apps/api/src/usage-groups.service.ts: the operations that change a usage group, its members, the
-- applications for its budget and its models. Each is one transaction, under the lock of the group; the
-- transactions run one at a time, so none is tried again. Reasons of applications are not in the model.
pub mod Revoke
pub mod Keeps
pub mod Closing
pub mod Archive
use text.Mathlib.Text.{◌==◌ as str_eq}
use ucli_server.Base.{
  ℕ, Bool, true, false, ◌&&◌, ◌||◌, not, Option, none, some, [], List, ◌∷◌, map, ◌++◌, ltb, ◌==◌,
  String, if◌then◌else◌, is_none, is_some, or_else,
}
use ucli_server.Base.Lists.{any, filter, includes, count_if, length}
use ucli_server.Base.Table.{find?, update_where}
use ucli_server.Budget.Result.{
  Result, ok, err, require, or_throw, ◌>>=◌, ◌>>◌, bad_request, forbidden, not_found, conflict,
  unique_violation,
}
use ucli_server.Budget.Money.{Amount, cny}
use ucli_server.Budget.Ledger.{
  Db, Group, Member, Principal, Project, ProjectMember, EmployeeKey, UnitType, OrgType, Mode,
  region_unit, department_unit, project_unit, regional, functional, legacy_project, whole, monthly,
  Application, ApplicationStatus, registered, rejected, is_admin,
}
use ucli_server.Budget.Ledger.Store.{find_group}
use ucli_server.Budget.Group.Rules.{lock_usage_group}
use ucli_server.Api.Grants.{
  Text, GrantDb, Grant, Link, Device, GroupText, PublicModel, ModelAccess, GroupAction,
  group_created, group_updated, group_enabled, group_disabled, group_archived, member_added,
  member_removed, leader_set, leader_unset, application_registered, application_rejected,
  models_replaced, group_changed,
}
use ucli_server.Api.Grants.Store.{
  audited, find_account, find_membership, find_organization, is_region,
}

-- `assertAdmin`.
unfoldable pub assert_admin : Principal → Result (Unit {0})
assert_admin actor = require (is_admin actor.role) forbidden

-- What an operation does under the lock.
abbrev pub Change {ℓ} : Type ℓ → Type ℓ
Change A = Group → Result (A × GrantDb)

-- `mutate`.
unfoldable pub mutate {ℓ} :
    {A : Type ℓ} → GrantDb → Principal → ℕ → GroupAction → Change A → Result (A × GrantDb)
unfolding assert_admin lock_usage_group audited
mutate db actor k action change = do
  assert_admin actor
  group ← lock_usage_group db.directory actor.organization_id k
  require (is_none group.archived_at) conflict
  (answer, later) ← change group
  ok (answer, audited later actor.sub actor.organization_id (group_changed action) k)

unfoldable pub with_groups : GrantDb → List Group → GrantDb
with_groups db groups = record db { directory = record db.directory { groups = groups } }

unfoldable pub with_members : GrantDb → List Member → GrantDb
with_members db members = record db { directory = record db.directory { members = members } }

-- `update` of a group by its identifier.
unfoldable pub write_group : GrantDb → ℕ → (Group → Group) → GrantDb
unfolding with_groups
write_group db k change = with_groups db (update_where (λ g. g.id == k) change db.directory.groups)

abbrev pub org_type_of : UnitType → OrgType
org_type_of region_unit = regional
org_type_of department_unit = functional
org_type_of project_unit = legacy_project

abbrev pub mode_of : UnitType → Mode
mode_of department_unit = monthly
mode_of _ = whole

-- The row that `create` writes, with the defaults of its columns.
unfoldable pub new_group : ℕ → ℕ → Bool → UnitType → Group
new_group new_id organization enabled type = record {
  id = new_id;
  organization_id = organization;
  organization_enabled = enabled;
  enabled = true;
  archived_at = none;
  type = type;
  org_type = org_type_of type;
  budget_mode = mode_of type;
  budget_timezone = "Asia/Shanghai";
  default_limit_cny = 0;
  unlimited = false;
}

-- `create`. A foreign key makes the organization exist.
unfoldable pub create : GrantDb → Principal → Text → UnitType → Text → ℕ → Result (Group × GrantDb)
unfolding assert_admin find_organization find_group new_group with_groups audited
create db actor name type description new_id = do
  assert_admin actor
  o ← or_throw (find_organization db actor.organization_id) not_found
  require (is_none (find_group db.directory new_id)) unique_violation
  let g = new_group new_id actor.organization_id o.enabled type
  let later = record (with_groups db (g ∷ db.directory.groups)) {
    group_texts =
        (record { group_id = new_id; name = name; description = description }) ∷ db.group_texts;
  }
  ok (g, audited later actor.sub actor.organization_id (group_changed group_created) new_id)

-- `update`: a field that is absent stays.
unfoldable pub update :
    GrantDb → Principal → ℕ → Option Text → Option Text → Result (Group × GrantDb)
unfolding mutate
update db actor k name description = mutate db actor k group_updated λ g. ok (
  g,
  record db {
    group_texts =
        update_where (λ t. t.group_id == k)
          (λ t. record t {
            name = or_else name t.name;
            description = or_else description t.description;
          })
          db.group_texts;
  },
)

-- `setEnabled`.
unfoldable pub set_enabled : GrantDb → Principal → ℕ → Bool → Result (Group × GrantDb)
unfolding mutate write_group
set_enabled db actor k enabled =
    mutate db actor k (if enabled then group_enabled else group_disabled) λ g.
      ok (record g { enabled = enabled }, write_group db k (λ x. record x { enabled = enabled }))

-- The member of a group for an account who has not left.
unfoldable pub is_member : ℕ → ℕ → ℕ → Member → Bool
is_member organization group account m =
    m.organization_id == organization
    && m.group_id == group
    && m.account_id == account
    && is_none m.removed_at

abbrev pub is_primary_kind : OrgType → Bool
is_primary_kind legacy_project = false
is_primary_kind _ = true

-- The `upsert` of `addMember`. A member who comes back keeps the role.
unfoldable pub put_member : List Member → ℕ → ℕ → ℕ → Bool → ℕ → List Member
put_member members organization group account primary now =
    let at_key = λ (m : Member). m.group_id == group && m.account_id == account in
    if any at_key members
    then update_where at_key
        (λ m. record m { removed_at = none; joined_at = now; is_primary = primary }) members
    else (record {
      organization_id = organization;
      account_id = account;
      group_id = group;
      is_leader = false;
      is_primary = primary;
      joined_at = now;
      removed_at = none;
      membership_active = true;
      account_active = true;
    })
      ∷ members

-- No other group of the account stays its primary one.
unfoldable pub clear_primary : List Member → ℕ → ℕ → List Member
clear_primary members organization account =
    update_where
      (λ m.
        m.organization_id == organization
        && m.account_id == account
        && is_none m.removed_at
        && m.is_primary)
      (λ m. record m { is_primary = false }) members

-- `addMember`.
unfoldable pub add_member : GrantDb → Principal → ℕ → ℕ → ℕ → Result (ℕ × GrantDb)
unfolding mutate find_membership find_account put_member clear_primary with_members
add_member db actor k account now = mutate db actor k (member_added account) λ g. do
  m ← or_throw (find_membership db actor.organization_id account) forbidden
  a ← or_throw (find_account db account) forbidden
  require (m.is_active && a.is_active) forbidden
  let primary = is_primary_kind g.org_type
  let rest =
      if primary
      then clear_primary db.directory.members actor.organization_id account
      else db.directory.members
  ok (account, with_members db (put_member rest actor.organization_id k account primary now))

-- `setLeader`.
unfoldable pub set_leader : GrantDb → Principal → ℕ → ℕ → Bool → Result (Bool × GrantDb)
unfolding mutate is_member with_members
set_leader db actor k account leader =
    mutate db actor k (if leader then leader_set account else leader_unset account) λ g. do
      require (any (is_member actor.organization_id k account) db.directory.members) not_found
      ok (
        leader,
        with_members db (
            update_where (is_member actor.organization_id k account)
              (λ m. record m { is_leader = leader }) db.directory.members),
      )

unfoldable pub with_applications : GrantDb → List Application → GrantDb
with_applications db rows = record db { directory = record db.directory { applications = rows } }

-- `createApplication`. The applicant is the caller where none is named.
unfoldable pub create_application :
    GrantDb → Principal → ℕ → Amount → Option ℕ → ℕ → Result (ℕ × GrantDb)
unfolding mutate find_membership with_applications
create_application db actor k requested applicant new_id =
    mutate db actor k application_registered λ g. do
      amount ← cny requested
      require (ltb 0 amount) bad_request
      let account = or_else applicant actor.sub
      m ← or_throw (find_membership db actor.organization_id account) forbidden
      require m.is_active forbidden
      require (not (any (λ a. a.id == new_id) db.directory.applications)) unique_violation
      ok (
        new_id,
        with_applications db (
            (record {
              id = new_id;
              organization_id = actor.organization_id;
              owner_id = k;
              applicant_account_id = account;
              requested_cny = amount;
              status = registered;
              approved_cny = none;
              decided_by_id = none;
              decided_at = none;
              decision_note = none;
              linked_entry_id = none;
              self_approved = false;
            })
            ∷ db.directory.applications),
      )

abbrev pub is_registered : ApplicationStatus → Bool
is_registered registered = true
is_registered _ = false

unfoldable pub is_application : ℕ → ℕ → ℕ → Application → Bool
is_application organization group k a =
    a.organization_id == organization && a.owner_id == group && a.id == k

-- `rejectApplication`: an empty note is not written.
unfoldable pub reject_application :
    GrantDb → Principal → ℕ → ℕ → Option String → ℕ → Result (ℕ × GrantDb)
unfolding mutate is_application with_applications
reject_application db actor group k remark now = mutate db actor group (application_rejected k) λ g.
    do
      require (any (is_application actor.organization_id group k) db.directory.applications)
          not_found
      require
          (any (λ a. is_application actor.organization_id group k a && is_registered a.status)
            db.directory.applications)
          conflict
      ok (
        k,
        with_applications db (
            update_where
              (λ a. is_application actor.organization_id group k a && is_registered a.status)
              (λ a. record a {
                status = rejected;
                decided_by_id = some actor.sub;
                decided_at = some now;
                decision_note = new_note remark a.decision_note;
              })
              db.directory.applications),
      )
  where
    new_note : Option String → Option String → Option String
    new_note none old = old
    new_note (some t) old = if str_eq t "" then old else some t

-- `[...new Set(ids)]`: the first of each, in order.
unfoldable pub distinct_from : List ℕ → List ℕ → List ℕ
distinct_from seen [] = []
distinct_from seen (k ∷ ks) =
    let rest = distinct_from (k ∷ seen) ks in if includes seen k then rest else k ∷ rest

-- `replaceModels`.
unfoldable pub replace_models : GrantDb → Principal → ℕ → List ℕ → Result (List ℕ × GrantDb)
unfolding mutate distinct_from
replace_models db actor k public_model_ids =
    mutate db actor k (models_replaced public_model_ids) λ g. do
      let ids = distinct_from [] public_model_ids
      require
          (count_if (λ m. includes ids m.id && is_none m.deleted_at) db.public_models == length ids)
          bad_request
      ok (
        ids,
        record db {
          model_access =
              map
                (λ m. record {
                  organization_id = actor.organization_id;
                  group_id = k;
                  public_model_id = m;
                })
                ids
              ++ filter (λ a. not (a.organization_id == actor.organization_id && a.group_id == k))
                  db.model_access;
        },
      )
