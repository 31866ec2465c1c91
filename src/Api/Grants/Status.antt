-- ===== src/Api/Grants/Status.antt =====
-- packages/security/src/device-grants.ts and device-grant-links.ts: the status of a grant and of a link
-- at a time, and the code that refuses it.
use ucli_server.Base.{ℕ, Bool, Option, none, some, false, leb, is_some, if◌then◌else◌}
use ucli_server.Budget.Result.{
  Code, grant_deleted, grant_disabled, grant_expired, link_consumed, link_revoked, link_expired,
}
use ucli_server.Api.Grants.{Grant, Link}

pub data GrantStatus : Type 0 where
  deleted disabled expired bound available : GrantStatus

-- `expiresAt && expiresAt <= now`.
unfoldable pub is_past : Option ℕ → ℕ → Bool
is_past none now = false
is_past (some t) now = leb t now

-- `deriveDeviceGrantStatus`.
unfoldable pub derive_device_grant_status : Grant → ℕ → GrantStatus
unfolding is_past
derive_device_grant_status g now =
    if is_some g.deleted_at
    then deleted
    else if is_some g.disabled_at
    then disabled
    else if is_past g.expires_at now
    then expired
    else if is_some g.device_id
    then bound
    else available

-- `deviceGrantFailure`.
unfoldable pub device_grant_failure : Grant → ℕ → Option Code
unfolding derive_device_grant_status
device_grant_failure g now = elim (derive_device_grant_status g now) [
  | deleted ↦ some grant_deleted
  | disabled ↦ some grant_disabled
  | expired ↦ some grant_expired
  | _ ↦ none
]

pub data LinkStatus : Type 0 where
  consumed_link revoked_link expired_link available_link : LinkStatus

-- `deriveDeviceGrantLinkStatus`.
unfoldable pub derive_device_grant_link_status : Link → ℕ → LinkStatus
unfolding is_past
derive_device_grant_link_status l now =
    if is_some l.consumed_at
    then consumed_link
    else if is_some l.revoked_at
    then revoked_link
    else if is_past l.expires_at now
    then expired_link
    else available_link

-- `deviceGrantLinkFailure`.
unfoldable pub device_grant_link_failure : Link → ℕ → Option Code
unfolding derive_device_grant_link_status
device_grant_link_failure l now = elim (derive_device_grant_link_status l now) [
  | consumed_link ↦ some link_consumed
  | revoked_link ↦ some link_revoked
  | expired_link ↦ some link_expired
  | available_link ↦ none
]
