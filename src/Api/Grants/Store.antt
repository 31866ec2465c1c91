-- ===== src/Api/Grants/Store.antt =====
-- apps/api/src/device-grants.service.ts: the queries and the audit rows that its operations share, and
-- `assertDeviceGroup` of packages/security/src/group-access.ts.
use ucli_server.Base.{
  ℕ, Bool, true, false, ◌&&◌, not, Option, none, some, ◌∷◌, ltb, ◌==◌, if◌then◌else◌, is_none, ◌+◌,
  ◌*◌,
}
use ucli_server.Base.Lists.{any}
use ucli_server.Base.Table.{find?, update_where}
use ucli_server.Base.Text.{same_codes}
use ucli_server.Budget.Result.{
  Result, Code, ok, err, require, or_throw, ◌>>=◌, ◌>>◌, bad_request, forbidden, not_found,
  unique_violation, coded,
}
use ucli_server.Budget.Ledger.{Db, Identity, Group, UnitType, region_unit, Credential}
use ucli_server.Budget.Ledger as Ledger
use ucli_server.Budget.Group.Reserve.{assert_active_group_member}
use ucli_server.Budget.Project.Rules.{is_active}
use ucli_server.Api.Keys.{Field, absent, null, given}
use ucli_server.Api.Grants.{
  Text, Organization, Account, Membership, Grant, Link, Device, Action, GrantDb,
}

unfoldable pub find_organization : GrantDb → ℕ → Option Organization
find_organization db k = find? (λ o. o.id == k) db.organizations

unfoldable pub find_account : GrantDb → ℕ → Option Account
find_account db k = find? (λ a. a.id == k) db.accounts

unfoldable pub find_membership : GrantDb → ℕ → ℕ → Option Membership
find_membership db organization account =
    find? (λ m. m.organization_id == organization && m.account_id == account) db.memberships

unfoldable pub find_grant : GrantDb → ℕ → Option Grant
find_grant db k = find? (λ g. g.id == k) db.grants

unfoldable pub find_device : GrantDb → ℕ → Option Device
find_device db k = find? (λ d. d.id == k) db.devices

-- `where: { secretHash }`.
unfoldable pub find_link : GrantDb → Text → Option Link
find_link db hash = find? (λ l. same_codes l.secret_hash hash) db.links

abbrev pub is_open_link : ℕ → Link → Bool
is_open_link grant l = l.device_grant_id == grant && is_none l.revoked_at && is_none l.consumed_at

-- `writeAudit` and `writeRedeemAudit`.
unfoldable pub audited : GrantDb → ℕ → ℕ → Action → ℕ → GrantDb
audited db actor organization done k = record db {
  audits =
      record {
        actor_account_id = actor;
        organization_id = organization;
        action = done;
        resource_id = k;
      }
      ∷ db.audits;
}

-- `lockOrganization`.
unfoldable pub lock_organization : GrantDb → ℕ → Result Organization
unfolding find_organization
lock_organization db k = or_throw (find_organization db k) not_found

-- The identity that `assertDeviceGroup` passes on.
abbrev pub device_identity : ℕ → ℕ → ℕ → Identity
device_identity organization account group = record {
  sub = account;
  organization_id = organization;
  group_id = group;
  credential_type = Ledger.device;
  api_key_id = none;
  device_id = none;
}

-- `assertDeviceGroup`.
unfoldable pub assert_device_group : Db → ℕ → ℕ → Option ℕ → Bool → Result (Unit {0})
unfolding assert_active_group_member
assert_device_group directory organization account (some group) required =
    assert_active_group_member directory (device_identity organization account group)
assert_device_group directory organization account none required = require (not required) forbidden

abbrev pub is_region : UnitType → Bool
is_region region_unit = true
is_region _ = false

-- The project of a grant in a group: a region asks for one of its active projects, another group for
-- none.
unfoldable pub target_project : Db → ℕ → Group → Option ℕ → Result (Option ℕ)
target_project directory organization group project_id =
    if is_region group.type
    then (do
      k ← or_throw project_id bad_request
      project ←
          or_throw
            (find?
              (λ p.
                p.id == k
                && p.organization_id == organization
                && p.region_id == group.id
                && is_active p.status)
              directory.projects)
            not_found
      ok (some project.id))
    else (do require (is_none project_id) bad_request; ok none)

-- `parseExpiry`, on a date as `Date` reads it.
unfoldable pub parse_expiry : ℕ → Field (Option ℕ) → Bool → Result (Option ℕ)
parse_expiry now absent required = if required then err bad_request else ok none
parse_expiry now null required = ok none
parse_expiry now (given none) required = err bad_request
parse_expiry now (given (some t)) required = do require (ltb now t) bad_request; ok (some t)

-- `parseLinkExpiry`: seven days where nothing is said.
unfoldable pub parse_link_expiry : Field (Option ℕ) → ℕ → Result (Option ℕ)
unfolding parse_expiry
parse_link_expiry absent now = ok (some (now + 7 * 24 * 60 * 60000))
parse_link_expiry value now = parse_expiry now value false

-- `grantException`, where there is a code.
unfoldable pub refuse_with : Option Code → Result (Unit {0})
refuse_with none = ok tt
refuse_with (some c) = err (coded c)

-- `revokeCurrentLink`: the open links of a grant.
unfoldable pub revoke_current_link : GrantDb → ℕ → ℕ → GrantDb
revoke_current_link db grant now = record db {
  links =
      update_where (is_open_link grant)
        (λ l. record l { revoked_at = some now; secret_encrypted = none }) db.links;
}

-- An insert, under the primary key and the unique index on the hash.
unfoldable pub insert_link : GrantDb → Link → Result GrantDb
unfolding find_link
insert_link db l = do
  require (not (any (λ x. x.id == l.id) db.links)) unique_violation
  require (is_none (find_link db l.secret_hash)) unique_violation
  ok (record db { links = l ∷ db.links })

unfoldable pub insert_grant : GrantDb → Grant → Result GrantDb
unfolding find_grant
insert_grant db g = do
  require (is_none (find_grant db g.id)) unique_violation
  ok (record db { grants = g ∷ db.grants })

-- The unique index on the refresh tokens, for the device `k`.
unfoldable pub has_token : GrantDb → ℕ → Text → Bool
has_token db k hash = any (λ d. not (d.id == k) && same_codes d.refresh_token_hash hash) db.devices

unfoldable pub fresh_token : GrantDb → ℕ → Text → Result (Unit {0})
unfolding has_token
fresh_token db k hash = require (not (has_token db k hash)) unique_violation

unfoldable pub insert_device : GrantDb → Device → Result GrantDb
unfolding find_device fresh_token
insert_device db d = do
  require (is_none (find_device db d.id)) unique_violation
  fresh_token db d.id d.refresh_token_hash
  ok (record db { devices = d ∷ db.devices })
