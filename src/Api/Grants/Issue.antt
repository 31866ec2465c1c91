-- ===== src/Api/Grants/Issue.antt =====
-- apps/api/src/device-grants.service.ts: `create`; device-grant-links.service.ts: `prepareCredential`,
-- `createInTransaction`, `viewCurrent` and `regenerate`. The public address of the deployment is an
-- argument, none where `requirePublicUrl` throws, and so is a fresh token. A call takes the time once.
use ucli_server.Base.{ℕ, Bool, true, false, ◌&&◌, Option, none, some, ◌==◌, is_none}
use ucli_server.Base.Table.{find?}
use ucli_server.Budget.Result.{
  Result, ok, err, require, or_throw, ◌>>=◌, ◌>>◌, forbidden, not_found, failed, coded,
  grant_deleted, grant_disabled, grant_expired, grant_bound,
}
use ucli_server.Budget.Group.Rules.{lock_usage_group}
use ucli_server.Api.Keys.{Field}
use ucli_server.Api.Grants.{
  Text, GrantDb, Grant, Link, grant_created, link_created, link_regenerated, link_viewed,
}
use ucli_server.Api.Grants.Status.{
  GrantStatus, deleted, disabled, expired, bound, available, derive_device_grant_status, LinkStatus,
  expired_link, available_link, derive_device_grant_link_status,
}
use ucli_server.Api.Grants.Store.{
  find_account, find_organization, find_membership, is_open_link, audited, lock_organization,
  assert_device_group, target_project, parse_expiry, parse_link_expiry, insert_grant, insert_link,
  revoke_current_link,
}

-- The cryptography of packages/security: `hashOpaqueToken`, `opaqueTokenHint` and the sealing of a
-- secret under the master key, which may fail to open.
pub record Vault : Type 0 where
  pub hash : Text → Text
  pub hint : Text → Text
  pub encrypt : Text → Text
  pub decrypt : Text → Option Text

-- `DeviceGrantLinkCredential`.
pub record Credential : Type 0 where
  pub secret : Text
  pub secret_hash : Text
  pub secret_hint : Text
  pub secret_encrypted : Text

-- `createDeviceGrantLinkCredential`, on the token of `createOpaqueToken`.
unfoldable pub create_credential : Vault → Text → Credential
create_credential vault token = record {
  secret = token;
  secret_hash = vault.hash token;
  secret_hint = vault.hint token;
  secret_encrypted = vault.encrypt token;
}

unfoldable pub new_link : ℕ → ℕ → ℕ → Option ℕ → Credential → ℕ → Link
new_link new_id actor grant expires credential now = record {
  id = new_id;
  device_grant_id = grant;
  secret_hash = credential.secret_hash;
  secret_encrypted = some credential.secret_encrypted;
  secret_hint = credential.secret_hint;
  expires_at = expires;
  revoked_at = none;
  consumed_at = none;
  created_by_id = actor;
  created_at = now;
}

-- `createInTransaction` of a link; the audit row says whether it replaces another.
unfoldable pub create_in_transaction :
    GrantDb
    → ℕ
    → ℕ
    → ℕ
    → Option ℕ
    → Option (Option ℕ)
    → Credential
    → ℕ
    → ℕ
    → Result (Link × GrantDb)
unfolding insert_link audited new_link
create_in_transaction db organization actor grant expires previous credential now new_id = do
  let l = new_link new_id actor grant expires credential now
  db₁ ← insert_link db l
  ok (
    l,
    audited db₁ actor organization
        (elim previous [ none ↦ link_created grant | some p ↦ link_regenerated grant p ]) l.id,
  )

-- `CreateDeviceGrantDto`.
pub record CreateInput : Type 0 where
  pub group_id : Option ℕ
  pub project_id : Option ℕ
  pub expires_at : Field (Option ℕ)
  pub link_expires_at : Field (Option ℕ)

-- `serializeLink`.
pub record LinkView : Type 0 where
  pub id : ℕ
  pub secret_hint : Text
  pub status : LinkStatus
  pub expires_at : Option ℕ
  pub created_at : ℕ

unfoldable pub serialize_link : Link → ℕ → LinkView
unfolding derive_device_grant_link_status
serialize_link l now = record {
  id = l.id;
  secret_hint = l.secret_hint;
  status = derive_device_grant_link_status l now;
  expires_at = l.expires_at;
  created_at = l.created_at;
}

-- The answer of `create` and of `regenerate`: the grant, its link, and the address with the secret.
pub record Handed : Type 0 where
  pub grant_id : ℕ
  pub current_link : LinkView
  pub origin : Text
  pub secret : Text

-- The join on the membership, the account and the organization.
unfoldable pub assert_managed : GrantDb → ℕ → ℕ → Result (Unit {0})
unfolding find_membership find_account find_organization
assert_managed db organization account = do
  m ← or_throw (find_membership db organization account) not_found
  a ← or_throw (find_account db account) not_found
  o ← or_throw (find_organization db organization) not_found
  require (m.is_active && a.is_active && o.enabled) forbidden

unfoldable pub new_grant : ℕ → ℕ → ℕ → ℕ → CreateInput → Option ℕ → Option ℕ → Grant
new_grant new_id organization actor account input project_id expires = record {
  id = new_id;
  organization_id = organization;
  account_id = account;
  group_id = input.group_id;
  project_id = project_id;
  expires_at = expires;
  disabled_at = none;
  deleted_at = none;
  bound_at = none;
  redeem_retry_until = none;
  device_id = none;
  created_by_id = actor;
}

-- The project of the new grant: none without a group.
unfoldable pub project_of : GrantDb → ℕ → CreateInput → Result (Option ℕ)
unfolding lock_usage_group target_project
project_of db organization input = elim input.group_id [
  | none ↦ ok none
  | some k ↦ lock_usage_group db.directory organization k >>= λ group.
      target_project db.directory organization group input.project_id
]

-- `create`, with the identifiers that the grant and the link get.
unfoldable pub create :
    GrantDb
    → ℕ
    → ℕ
    → ℕ
    → CreateInput
    → Credential
    → Option Text
    → ℕ
    → ℕ
    → ℕ
    → Result (Handed × GrantDb)
unfolding serialize_link parse_expiry parse_link_expiry lock_organization project_of
    assert_device_group assert_managed new_grant insert_grant create_in_transaction audited
create db organization actor account input credential public_url now new_grant_id new_link_id = do
  expires ← parse_expiry now input.expires_at false
  o ← lock_organization db organization
  project_id ← project_of db organization input
  assert_device_group db.directory organization account input.group_id o.require_device_group
  assert_managed db organization account
  link_expires ← parse_link_expiry input.link_expires_at now
  origin ← or_throw public_url failed
  let g = new_grant new_grant_id organization actor account input project_id expires
  db₁ ← insert_grant db g
  (l, db₂) ←
      create_in_transaction db₁ organization actor g.id link_expires none credential now new_link_id
  ok (
    record {
      grant_id = g.id;
      current_link = serialize_link l now;
      origin = origin;
      secret = credential.secret;
    },
    audited db₂ actor organization grant_created g.id,
  )

unfoldable pub find_grant_of : GrantDb → ℕ → ℕ → Option Grant
find_grant_of db organization k =
    find? (λ g. g.id == k && g.organization_id == organization) db.grants

abbrev pub can_view : LinkStatus → Bool
can_view available_link = true
can_view expired_link = true
can_view _ = false

-- `viewCurrent`: the secret of the newest link, where it may still be shown.
unfoldable pub view_current :
    Vault → GrantDb → ℕ → ℕ → ℕ → Option Text → ℕ → Result (Handed × GrantDb)
unfolding find_grant_of derive_device_grant_link_status audited serialize_link
view_current vault db organization actor k public_url now = do
  g ← or_throw (find_grant_of db organization k) not_found
  require (is_none g.deleted_at) (coded grant_deleted)
  require (is_none g.disabled_at) (coded grant_disabled)
  l ← or_throw (find? (λ l. l.device_grant_id == g.id) db.links) not_found
  sealed ← or_throw l.secret_encrypted not_found
  require (can_view (derive_device_grant_link_status l now)) not_found
  secret ← or_throw (vault.decrypt sealed) failed
  origin ← or_throw public_url failed
  ok (
    record {
      grant_id = g.id;
      current_link = serialize_link l now;
      origin = origin;
      secret = secret;
    },
    audited db actor organization link_viewed l.id,
  )

-- Only a grant that waits for its device gets another link.
unfoldable pub assert_available : GrantStatus → Result (Unit {0})
assert_available available = ok tt
assert_available deleted = err (coded grant_deleted)
assert_available disabled = err (coded grant_disabled)
assert_available expired = err (coded grant_expired)
assert_available bound = err (coded grant_bound)

unfoldable pub previous_link : GrantDb → ℕ → Option ℕ
previous_link db k = elim (find? (is_open_link k) db.links) [ none ↦ none | some l ↦ some l.id ]

-- The transaction of `regenerate`: the open links are revoked before the new one is made.
unfoldable pub replace_link :
    GrantDb → ℕ → ℕ → ℕ → Field (Option ℕ) → Credential → ℕ → ℕ → Result (Link × GrantDb)
unfolding find_grant_of derive_device_grant_status assert_available parse_link_expiry previous_link
    revoke_current_link create_in_transaction
replace_link db organization actor k expires_input credential now new_id = do
  g ← or_throw (find_grant_of db organization k) not_found
  assert_available (derive_device_grant_status g now)
  expires ← parse_link_expiry expires_input now
  create_in_transaction (revoke_current_link db g.id now) organization actor g.id expires
      (some (previous_link db g.id)) credential now new_id

-- The address is asked for after the transaction has committed.
unfoldable pub hand_out :
    GrantDb → Credential → Option Text → ℕ → Result (Link × GrantDb) → GrantDb × Result Handed
unfolding serialize_link
hand_out db credential public_url now (err e) = (db, err e)
hand_out db credential public_url now (ok (l, later)) = (
  later,
  or_throw public_url failed >>= λ origin. ok (record {
    grant_id = l.device_grant_id;
    current_link = serialize_link l now;
    origin = origin;
    secret = credential.secret;
  }),
)

-- `regenerate`.
unfoldable pub regenerate :
    GrantDb
    → ℕ
    → ℕ
    → ℕ
    → Field (Option ℕ)
    → Credential
    → Option Text
    → ℕ
    → ℕ
    → GrantDb × Result Handed
unfolding replace_link hand_out
regenerate db organization actor k expires_input credential public_url now new_id =
    hand_out db credential public_url now
      (replace_link db organization actor k expires_input credential now new_id)
