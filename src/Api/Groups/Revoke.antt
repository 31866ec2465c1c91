-- ===== src/Api/Groups/Revoke.antt =====
-- apps/api/src/usage-groups.service.ts: `revokeCredentials`, and `archive` and `removeMember`, which use
-- it.
use ucli_server.Base.{
  ℕ, Bool, false, ◌&&◌, not, Option, none, some, [], List, ◌∷◌, ◌==◌, if◌then◌else◌, is_none,
}
use ucli_server.Base.Lists.{any, filter}
use ucli_server.Base.Table.{update_where}
use ucli_server.Budget.Result.{Result, ok, require, ◌>>◌, not_found}
use ucli_server.Budget.Ledger.{Db, Group, Principal, ProjectMember}
use ucli_server.Budget.Group.Reserve.{matches_id}
use ucli_server.Api.Grants.{GrantDb, Grant, group_archived, member_removed}
use ucli_server.Api.Grants.Store.{is_region}
use ucli_server.Api.Groups.{mutate, write_group, is_member, with_members}

-- The keys of the group, of one account where one is named.
unfoldable pub revoke_keys : GrantDb → ℕ → ℕ → Option ℕ → ℕ → GrantDb
revoke_keys db organization group account now = record db {
  directory = record db.directory {
    keys =
        update_where
          (λ k.
            k.organization_id == organization
            && k.group_id == group
            && matches_id account k.account_id
            && is_none k.revoked_at)
          (λ k. record k { revoked_at = some now }) db.directory.keys;
  };
}

abbrev pub in_group : Option ℕ → ℕ → Bool
in_group none k = false
in_group (some g) k = g == k

-- The grants that are revoked.
unfoldable pub is_group_grant : ℕ → ℕ → Option ℕ → Grant → Bool
is_group_grant organization group account g =
    g.organization_id == organization
    && in_group g.group_id group
    && matches_id account g.account_id
    && is_none g.deleted_at

unfoldable pub revoke_grant_device : GrantDb → Option ℕ → ℕ → GrantDb
revoke_grant_device db none now = db
revoke_grant_device db (some device_id) now = record db {
  devices =
      update_where (λ d. d.id == device_id) (λ d. record d { revoked_at = some now }) db.devices;
}

-- One grant: its links, consumed ones included, and its own row.
unfoldable pub close_grant : GrantDb → ℕ → Grant → GrantDb
close_grant db now g = record db {
  links =
      update_where (λ l. l.device_grant_id == g.id && is_none l.revoked_at)
        (λ l. record l { revoked_at = some now; secret_encrypted = none }) db.links;
  grants = update_where (λ x. x.id == g.id) (λ x. record x { deleted_at = some now }) db.grants;
}

-- And its device.
unfoldable pub revoke_grant : GrantDb → ℕ → Grant → GrantDb
unfolding close_grant revoke_grant_device
revoke_grant db now g = revoke_grant_device (close_grant db now g) g.device_id now

unfoldable pub revoke_grants : GrantDb → ℕ → List Grant → GrantDb
unfolding revoke_grant
revoke_grants db now [] = db
revoke_grants db now (g ∷ gs) = revoke_grants (revoke_grant db now g) now gs

-- `revokeCredentials`. The order of the grants is that of their locks.
unfoldable pub revoke_credentials : GrantDb → ℕ → ℕ → ℕ → Option ℕ → GrantDb
unfolding revoke_keys is_group_grant revoke_grants
revoke_credentials db organization group now account =
    revoke_grants (revoke_keys db organization group account now) now
      (filter (is_group_grant organization group account) db.grants)

unfoldable pub archived_group : ℕ → Group → Group
archived_group now g = record g { enabled = false; archived_at = some now }

-- `archive`.
unfoldable pub archive : GrantDb → Principal → ℕ → ℕ → Result (Group × GrantDb)
unfolding mutate revoke_credentials write_group archived_group
archive db actor k now = mutate db actor k group_archived λ g. ok (
  archived_group now g,
  write_group (revoke_credentials db actor.organization_id k now none) k (archived_group now),
)

-- A member of a project of the region; the organization of a member is the project's.
unfoldable pub in_region : Db → ℕ → ℕ → ℕ → ProjectMember → Bool
in_region directory organization region account m =
    m.account_id == account
    && any (λ p. p.id == m.project_id && p.organization_id == organization && p.region_id == region)
        directory.projects

unfoldable pub leave_projects : GrantDb → ℕ → ℕ → ℕ → GrantDb
unfolding in_region
leave_projects db organization region account = record db {
  directory = record db.directory {
    project_members =
        filter (λ m. not (in_region db.directory organization region account m))
          db.directory.project_members;
  };
}

-- The member leaves the group, and the projects of the group where it is a region.
unfoldable pub leave_group : GrantDb → Principal → Group → ℕ → ℕ → ℕ → GrantDb
unfolding is_member with_members leave_projects
leave_group db actor g k account now =
    let left = with_members db (
      update_where (is_member actor.organization_id k account)
        (λ m. record m { removed_at = some now }) db.directory.members) in
    if is_region g.type then leave_projects left actor.organization_id k account else left

-- `removeMember`.
unfoldable pub remove_member : GrantDb → Principal → ℕ → ℕ → ℕ → Result (ℕ × GrantDb)
unfolding mutate is_member leave_group revoke_credentials
remove_member db actor k account now = mutate db actor k (member_removed account) λ g. do
  require (any (is_member actor.organization_id k account) db.directory.members) not_found
  ok (
    account,
    revoke_credentials (leave_group db actor g k account now) actor.organization_id k now
        (some account),
  )
