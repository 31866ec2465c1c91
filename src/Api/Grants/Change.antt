-- ===== src/Api/Grants/Change.antt =====
-- apps/api/src/device-grants.service.ts: `updateExpiration`, `enable`, `disable` and `delete`, and the
-- filters of `listGrouped`.
use ucli_server.Base.{ℕ, Bool, true, ◌&&◌, not, Option, none, some, ◌==◌, is_none, is_some}
use ucli_server.Base.Lists.{count_if}
use ucli_server.Base.Table.{find?, update_where}
use ucli_server.Budget.Result.{Result, ok, require, or_throw, ◌>>=◌, ◌>>◌, not_found}
use ucli_server.Api.Keys.{Field}
use ucli_server.Api.Grants.{
  GrantDb, Grant, Action, grant_updated, grant_enabled, disabled_grant, deleted_grant,
}
use ucli_server.Api.Grants.Status.{
  GrantStatus, deleted, disabled, expired, bound, available, is_past,
}
use ucli_server.Api.Grants.Store.{
  audited, lock_organization, assert_device_group, parse_expiry, revoke_current_link,
}

-- `where: { id, organizationId, deletedAt: null }`.
unfoldable pub is_target : ℕ → ℕ → Grant → Bool
is_target organization k g = g.id == k && g.organization_id == organization && is_none g.deleted_at

-- `updateMany` with a test that one row was written.
unfoldable pub write_grant : GrantDb → ℕ → ℕ → (Grant → Grant) → Result GrantDb
unfolding is_target
write_grant db organization k change = do
  require (count_if (is_target organization k) db.grants == 1) not_found
  ok (record db { grants = update_where (is_target organization k) change db.grants })

-- `auditLifecycle`.
unfoldable pub audit_lifecycle : GrantDb → ℕ → ℕ → ℕ → Action → (Grant → Grant) → Result GrantDb
unfolding lock_organization is_target assert_device_group write_grant audited
audit_lifecycle db organization actor k done change = do
  o ← lock_organization db organization
  g ← or_throw (find? (is_target organization k) db.grants) not_found
  assert_device_group db.directory organization g.account_id g.group_id o.require_device_group
  db₁ ← write_grant db organization k change
  ok (audited db₁ actor organization done k)

-- `updateExpiration`.
unfoldable pub update_expiration :
    GrantDb → ℕ → ℕ → ℕ → Field (Option ℕ) → ℕ → Result (Option ℕ × GrantDb)
unfolding parse_expiry audit_lifecycle
update_expiration db organization actor k input now = do
  expires ← parse_expiry now input true
  db₁ ←
      audit_lifecycle db organization actor k grant_updated (λ g. record g { expires_at = expires })
  ok (expires, db₁)

-- `enable`.
unfoldable pub enable : GrantDb → ℕ → ℕ → ℕ → Result (Option ℕ × GrantDb)
unfolding audit_lifecycle
enable db organization actor k = do
  db₁ ← audit_lifecycle db organization actor k grant_enabled (λ g. record g { disabled_at = none })
  ok (none, db₁)

-- `disable`, in `withLockedCurrentLinkAndGrant`.
unfoldable pub disable : GrantDb → ℕ → ℕ → ℕ → ℕ → Result (Option ℕ × GrantDb)
unfolding is_target write_grant revoke_current_link audited
disable db organization actor k now = do
  g ← or_throw (find? (is_target organization k) db.grants) not_found
  db₁ ← write_grant db organization k (λ x. record x { disabled_at = some now })
  ok (some now, audited (revoke_current_link db₁ k now) actor organization disabled_grant k)

-- The device of a deleted grant is revoked.
unfoldable pub revoke_device : GrantDb → ℕ → Option ℕ → ℕ → GrantDb
revoke_device db organization none now = db
revoke_device db organization (some device_id) now = record db {
  devices =
      update_where (λ d. d.id == device_id && d.organization_id == organization)
        (λ d. record d { revoked_at = some now }) db.devices;
}

-- `delete`, in `withLockedCurrentLinkAndGrant`.
unfoldable pub delete : GrantDb → ℕ → ℕ → ℕ → ℕ → Result (Option ℕ × GrantDb)
unfolding is_target write_grant revoke_current_link revoke_device audited
delete db organization actor k now = do
  g ← or_throw (find? (is_target organization k) db.grants) not_found
  db₁ ← write_grant db organization k (λ x. record x { deleted_at = some now })
  ok (
    some now,
    audited (revoke_device (revoke_current_link db₁ k now) organization g.device_id now) actor
        organization deleted_grant k,
  )

-- `statusWhere`: the filter of a status, as a query.
unfoldable pub status_where : GrantStatus → ℕ → Grant → Bool
unfolding is_past
status_where available now g =
    is_none g.deleted_at
    && is_none g.disabled_at
    && not (is_past g.expires_at now)
    && is_none g.device_id
status_where bound now g =
    is_none g.deleted_at
    && is_none g.disabled_at
    && not (is_past g.expires_at now)
    && is_some g.device_id
status_where disabled now g = is_none g.deleted_at && is_some g.disabled_at
status_where expired now g =
    is_none g.deleted_at && is_none g.disabled_at && is_past g.expires_at now
status_where deleted now g = is_some g.deleted_at
