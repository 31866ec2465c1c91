-- ===== src/Api/Grants/Assign.antt =====
-- apps/api/src/device-grants.service.ts: `setGroupRequirement` and `assignGroups`.
use ucli_server.Base.{
  ℕ, Bool, false, ◌&&◌, ◌||◌, not, Option, some, [], List, ◌∷◌, ◌==◌, is_none, leb, ltb,
  if◌then◌else◌,
}
use ucli_server.Base.Lists.{any, length, count_if}
use ucli_server.Base.Table.{find?, update_where}
use ucli_server.Base.Sorting.{sort_by}
use ucli_server.Budget.Result.{
  Result, ok, require, or_throw, ◌>>=◌, ◌>>◌, bad_request, not_found, conflict,
}
use ucli_server.Budget.Ledger.{Db}
use ucli_server.Budget.Ledger.Store.{find_group}
use ucli_server.Budget.Group.Rules.{lock_usage_group}
use ucli_server.Budget.Group.Reserve.{assert_active_group_member}
use ucli_server.Api.Grants.{GrantDb, Grant, group_assigned, requirement_changed}
use ucli_server.Api.Grants.Status.{is_past}
use ucli_server.Api.Grants.Store.{audited, device_identity, lock_organization, target_project}

-- `ungroupedWhere`: the grants of an organization that are in use or may come into use, without a group.
unfoldable pub is_ungrouped : ℕ → ℕ → Grant → Bool
unfolding is_past
is_ungrouped organization now g =
    g.organization_id == organization
    && is_none g.group_id
    && is_none g.deleted_at
    && is_none g.disabled_at
    && not (is_past g.expires_at now)

-- `setGroupRequirement`.
unfoldable pub set_group_requirement : GrantDb → ℕ → ℕ → Bool → ℕ → Result (Bool × GrantDb)
unfolding lock_organization is_ungrouped audited
set_group_requirement db organization actor required now = do
  before ← lock_organization db organization
  require (not (required && any (is_ungrouped organization now) db.grants)) conflict
  let db₁ = record db {
    organizations =
        update_where (λ o. o.id == organization) (λ o. record o { require_device_group = required })
          db.organizations;
  }
  ok (
    required,
    audited db₁ actor organization (requirement_changed before.require_device_group required)
        organization,
  )

pub record Mapping : Type 0 where
  pub grant_id : ℕ
  pub account_id : ℕ
  pub group_id : ℕ
  pub project_id : Option ℕ

unfoldable pub has_repeat : List Mapping → Bool
has_repeat [] = false
has_repeat (m ∷ ms) = any (λ n. n.grant_id == m.grant_id) ms || has_repeat ms

-- The locks on the groups of the mappings. A group that is missing throws the same whatever the order.
unfoldable pub lock_groups : Db → ℕ → List Mapping → Result (Unit {0})
unfolding lock_usage_group
lock_groups directory organization [] = ok tt
lock_groups directory organization (m ∷ ms) = do
  group ← lock_usage_group directory organization m.group_id
  lock_groups directory organization ms

-- The `where` of the query, and of the update, which asks again that there is no group.
unfoldable pub is_owned : ℕ → Mapping → Grant → Bool
is_owned organization m g =
    g.id == m.grant_id
    && g.organization_id == organization
    && g.account_id == m.account_id
    && is_none g.deleted_at

unfoldable pub write_group : GrantDb → ℕ → ℕ → Grant → Mapping → Option ℕ → Result GrantDb
unfolding is_owned audited
write_group db organization actor g m project_id = do
  require (count_if (λ x. is_owned organization m x && is_none x.group_id) db.grants == 1) conflict
  ok (
      audited
        (record db {
          grants =
              update_where (λ x. is_owned organization m x && is_none x.group_id)
                (λ x. record x { group_id = some m.group_id; project_id = project_id }) db.grants;
        })
        actor organization (group_assigned m.account_id m.group_id) g.id)

-- The body of the loop.
unfoldable pub assign_group : GrantDb → ℕ → ℕ → Bool → Mapping → Result GrantDb
unfolding is_owned assert_active_group_member find_group target_project write_group
assign_group db organization actor dry_run m = do
  g ← or_throw (find? (is_owned organization m) db.grants) not_found
  require (is_none g.group_id) conflict
  assert_active_group_member db.directory (device_identity organization m.account_id m.group_id)
  group ← or_throw (find_group db.directory m.group_id) not_found
  project_id ← target_project db.directory organization group m.project_id
  if dry_run then ok db else write_group db organization actor g m project_id

unfoldable pub assign_each : GrantDb → ℕ → ℕ → Bool → List Mapping → Result GrantDb
unfolding assign_group
assign_each db organization actor dry_run [] = ok db
assign_each db organization actor dry_run (m ∷ ms) = do
  db₁ ← assign_group db organization actor dry_run m
  assign_each db₁ organization actor dry_run ms

-- `assignGroups`. The order of the identifiers is that of their texts.
unfoldable pub assign_groups : GrantDb → ℕ → ℕ → List Mapping → Bool → Result (ℕ × GrantDb)
unfolding has_repeat lock_organization lock_groups assign_each sort_by
assign_groups db organization actor mappings dry_run = do
  require (leb 1 (length mappings) && leb (length mappings) 1000 && not (has_repeat mappings))
      bad_request
  o ← lock_organization db organization
  lock_groups db.directory organization mappings
  db₁ ←
      assign_each db organization actor dry_run
        (sort_by (λ m n. ltb m.grant_id n.grant_id) mappings)
  ok (length mappings, db₁)
