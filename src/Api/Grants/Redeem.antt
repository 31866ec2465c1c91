-- ===== src/Api/Grants/Redeem.antt =====
-- apps/api/src/device-grants.service.ts: `preview` and `redeem`, the calls of a device. A body is read
-- as it came: a link or a field that is no text is none. The transactions on a link run one at a time,
-- so the unique index on the installation has nothing to report that the query did not find.
use ucli_server.Base.{
  ℕ, ◌+◌, ◌*◌, Bool, true, false, ◌&&◌, ◌||◌, not, Option, none, some, ◌==◌, is_none, is_some, leb,
  if◌then◌else◌,
}
use ucli_server.Base.Lists.{any}
use ucli_server.Base.Table.{update_where}
use ucli_server.Base.Text.{same_codes, codes, utf16_length, trim, is_uuid_v4, lower_hex}
use ucli_server.Budget.Result.{
  Result, Code, ok, err, require, or_throw, ◌>>=◌, ◌>>◌, not_found, coded, invalid_link,
  invalid_device, invalid_grant, account_inactive, organization_inactive, link_consumed,
}
use ucli_server.Budget.Ledger.{Role}
use ucli_server.Api.Grants.{
  Text, GrantDb, Grant, Link, Device, first_bind, idempotent_retry, redeem_failed,
}
use ucli_server.Api.Grants.Status.{
  LinkStatus, GrantStatus, derive_device_grant_status, derive_device_grant_link_status,
  device_grant_failure, device_grant_link_failure, is_past,
}
use ucli_server.Api.Grants.Store.{
  find_account, find_organization, find_membership, find_grant, find_device, find_link, audited,
  assert_device_group, refuse_with, fresh_token, insert_device,
}

-- `validateLink`.
unfoldable pub validate_link : Option Text → Result Text
validate_link none = err (coded invalid_link)
validate_link (some t) = do
  require (leb 32 (utf16_length t) && leb (utf16_length t) 128) (coded invalid_link)
  ok t

-- The `device` of a body, where it is an object.
pub record DeviceBody : Type 0 where
  pub installation_id : Option Text
  pub name : Option Text
  pub platform : Option Text
  pub client_version : Option Text

pub record DeviceInput : Type 0 where
  pub installation_id : Text
  pub name : Text
  pub platform : Text
  pub client_version : Text

unfoldable pub is_platform : Text → Bool
is_platform t =
    same_codes t (codes "windows") || same_codes t (codes "macos") || same_codes t (codes "linux")

unfoldable pub is_valid_device : DeviceInput → Bool
unfolding is_uuid_v4 trim utf16_length is_platform
is_valid_device d =
    is_uuid_v4 d.installation_id
    && leb 1 (utf16_length (trim d.name))
    && leb (utf16_length (trim d.name)) 120
    && is_platform d.platform
    && leb 1 (utf16_length d.client_version)
    && leb (utf16_length d.client_version) 32

-- `validateDevice`.
unfoldable pub validate_device : Option DeviceBody → Result DeviceInput
unfolding is_valid_device
validate_device body = do
  b ← or_throw body (coded invalid_device)
  installation ← or_throw b.installation_id (coded invalid_device)
  name ← or_throw b.name (coded invalid_device)
  platform ← or_throw b.platform (coded invalid_device)
  version ← or_throw b.client_version (coded invalid_device)
  let d : DeviceInput = record {
    installation_id = installation;
    name = name;
    platform = platform;
    client_version = version;
  }
  require (is_valid_device d) (coded invalid_device)
  ok d

-- `assertEligibleGrant`. Foreign keys make the account and the organization of a grant exist.
unfoldable pub assert_eligible_grant : GrantDb → Grant → ℕ → Result Role
unfolding find_account find_organization find_membership device_grant_failure refuse_with
assert_eligible_grant db g now = do
  refuse_with (device_grant_failure g now)
  account ← or_throw (find_account db g.account_id) not_found
  require account.is_active (coded account_inactive)
  organization ← or_throw (find_organization db g.organization_id) not_found
  require organization.enabled (coded organization_inactive)
  m ← or_throw (find_membership db g.organization_id g.account_id) (coded invalid_grant)
  require m.is_active (coded account_inactive)
  ok m.role

unfoldable pub assert_grant_group : GrantDb → Grant → Result (Unit {0})
unfolding find_organization assert_device_group
assert_grant_group db g = do
  o ← or_throw (find_organization db g.organization_id) not_found
  assert_device_group db.directory g.organization_id g.account_id g.group_id o.require_device_group

-- The link of a secret and the grant of the link.
unfoldable pub locate : GrantDb → Text → Result (Link × Grant)
unfolding find_link find_grant
locate db hash = do
  l ← or_throw (find_link db hash) (coded invalid_link)
  g ← or_throw (find_grant db l.device_grant_id) (coded invalid_link)
  ok (l, g)

pub record Preview : Type 0 where
  pub account_id : ℕ
  pub organization_id : ℕ
  pub link_status : LinkStatus
  pub link_expires_at : Option ℕ
  pub grant_status : GrantStatus
  pub grant_expires_at : Option ℕ
  pub server_time : ℕ

-- `preview`, with `hashOpaqueToken` as an argument. It changes nothing.
unfoldable pub preview : (Text → Text) → GrantDb → Option Text → ℕ → Result Preview
unfolding validate_link locate device_grant_link_failure refuse_with assert_eligible_grant
    assert_grant_group
preview hash db secret now = do
  text ← validate_link secret
  (l, g) ← locate db (hash text)
  refuse_with (device_grant_link_failure l now)
  role ← assert_eligible_grant db g now
  assert_grant_group db g
  ok (record {
    account_id = g.account_id;
    organization_id = g.organization_id;
    link_status = derive_device_grant_link_status l now;
    link_expires_at = l.expires_at;
    grant_status = derive_device_grant_status g now;
    grant_expires_at = g.expires_at;
    server_time = now;
  })

-- `credentials`: what the access token says, and what goes with it.
pub record Credentials : Type 0 where
  pub sub : ℕ
  pub organization_id : ℕ
  pub device_id : ℕ
  pub role : Role
  pub token_version : ℕ
  pub refresh_token : Text
  pub expires_in : ℕ
  pub expires_at : Option ℕ
  pub server_time : ℕ

unfoldable pub credentials : GrantDb → Grant → Role → ℕ → Text → ℕ → Result Credentials
unfolding find_account
credentials db g role device_id refresh_token now = do
  account ← or_throw (find_account db g.account_id) not_found
  ok (record {
    sub = g.account_id;
    organization_id = g.organization_id;
    device_id = device_id;
    role = role;
    token_version = account.token_version;
    refresh_token = refresh_token;
    expires_in = 900;
    expires_at = g.expires_at;
    server_time = now;
  })

abbrev is_installation : Option Text → Text → Bool
is_installation none t = false
is_installation (some u) t = same_codes u t

-- The device that was bound may ask again until `redeemRetryUntil`.
unfoldable pub may_retry : Grant → Device → DeviceInput → ℕ → Bool
unfolding is_past
may_retry g d input now =
    is_installation d.installation_id input.installation_id
    && is_none d.revoked_at
    && is_some g.redeem_retry_until
    && not (is_past g.redeem_retry_until now)

abbrev pub device_of : GrantDb → Grant → Option Device
unfolding find_device
device_of db g = elim g.device_id [ none ↦ none | some k ↦ find_device db k ]

unfoldable pub is_installed : Text → Device → Bool
unfolding lower_hex
is_installed installation d =
    is_none d.revoked_at && is_installation d.installation_id (lower_hex installation)

-- The grant takes the device, for ten minutes it may ask again, and the link is consumed.
unfoldable pub bind_device : GrantDb → Link → Grant → ℕ → ℕ → GrantDb
bind_device db l g device_id now = record db {
  grants =
      update_where (λ x. x.id == g.id)
        (λ x. record x {
          device_id = some device_id;
          bound_at = some now;
          redeem_retry_until = some (now + 10 * 60000);
        })
        db.grants;
  links =
      update_where (λ x. x.id == l.id)
        (λ x. record x { consumed_at = some now; secret_encrypted = none }) db.links;
}

abbrev pub is_consumed : Option Code → Bool
is_consumed (some link_consumed) = true
is_consumed _ = false

-- The body of a redemption, after its tests.
unfoldable pub validate_redeem : Option Text → Option DeviceBody → Result (Text × DeviceInput)
unfolding validate_link validate_device
validate_redeem secret body = do
  text ← validate_link secret
  input ← validate_device body
  ok (text, input)

-- What `redeem` leaves behind: a failure is written after the transaction was rolled back.
unfoldable pub after_redeem :
    GrantDb → Link → Grant → Result (Credentials × GrantDb) → GrantDb × Result Credentials
unfolding audited
after_redeem db l g (ok (answer, later)) = (later, ok answer)
after_redeem db l g (err e) =
    (audited db g.account_id g.organization_id (redeem_failed e) l.id, err e)

module _ (hash : Text → Text) where
  -- `redeem` with a link that was consumed.
  unfoldable pub redeem_again :
      GrantDb → Link → Grant → DeviceInput → Text → ℕ → Result (Credentials × GrantDb)
  unfolding may_retry assert_eligible_grant fresh_token audited credentials
  redeem_again db l g input refresh_token now = do
    d ← or_throw (device_of db g) (coded link_consumed)
    require (may_retry g d input now) (coded link_consumed)
    role ← assert_eligible_grant db g now
    fresh_token db d.id (hash refresh_token)
    answer ← credentials db g role d.id refresh_token now
    let db₁ = record db {
      devices =
          update_where (λ x. x.id == d.id)
            (λ x. record x { refresh_token_hash = hash refresh_token; last_seen_at = some now })
            db.devices;
    }
    ok (answer, audited db₁ g.account_id g.organization_id (idempotent_retry d.id) l.id)

  -- The device that `redeem` makes. A `uuid` column gives its letters back in lower case.
  unfoldable pub new_device : ℕ → Grant → DeviceInput → Text → Device
  unfolding lower_hex trim
  new_device new_id g input refresh_token = record {
    id = new_id;
    organization_id = g.organization_id;
    account_id = g.account_id;
    name = trim input.name;
    installation_id = some (lower_hex input.installation_id);
    platform = some input.platform;
    client_version = some input.client_version;
    refresh_token_hash = hash refresh_token;
    revoked_at = none;
    last_seen_at = none;
  }

  -- `redeem` with a link that is open.
  unfoldable pub redeem_first :
      GrantDb → Link → Grant → DeviceInput → Text → ℕ → ℕ → Result (Credentials × GrantDb)
  unfolding assert_eligible_grant is_installed new_device insert_device bind_device audited
      credentials
  redeem_first db l g input refresh_token now new_id = do
    role ← assert_eligible_grant db g now
    require (is_none g.device_id) (coded link_consumed)
    require (not (any (is_installed input.installation_id) db.devices)) (coded invalid_device)
    db₁ ← insert_device db (new_device new_id g input refresh_token)
    answer ← credentials db g role new_id refresh_token now
    ok (
      answer,
      audited (bind_device db₁ l g new_id now) g.account_id g.organization_id (first_bind new_id)
          l.id,
    )

  -- The transaction, once the link and the grant are known.
  unfoldable pub redeem_located :
      GrantDb → Link → Grant → DeviceInput → Text → ℕ → ℕ → Result (Credentials × GrantDb)
  unfolding assert_grant_group device_grant_link_failure refuse_with redeem_again redeem_first
  redeem_located db l g input refresh_token now new_id = do
    assert_grant_group db g
    let failure = device_grant_link_failure l now
    if is_consumed failure
        then redeem_again db l g input refresh_token now
        else refuse_with failure >> redeem_first db l g input refresh_token now new_id

  unfoldable pub redeem_with :
      GrantDb → DeviceInput → Text → ℕ → ℕ → Result (Link × Grant) → GrantDb × Result Credentials
  unfolding after_redeem redeem_located
  redeem_with db input refresh_token now new_id (err e) = (db, err e)
  redeem_with db input refresh_token now new_id (ok (l, g)) =
      after_redeem db l g (redeem_located db l g input refresh_token now new_id)

  -- `redeem`, with the token and the identifier that a device gets.
  unfoldable pub redeem :
      GrantDb → Option Text → Option DeviceBody → Text → ℕ → ℕ → GrantDb × Result Credentials
  unfolding validate_redeem locate redeem_with
  redeem db secret body refresh_token now new_id = elim (validate_redeem secret body) [
    | err e ↦ (db, err e)
    | ok valid ↦ redeem_with db valid.1 refresh_token now new_id (locate db (hash valid.0))
  ]
