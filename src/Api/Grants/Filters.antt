-- ===== src/Api/Grants/Filters.antt =====
-- The filters of `listGrouped` of apps/api/src/device-grants.service.ts, against
-- packages/security/src/device-grants.ts.
use ucli_server.Base.{ℕ, ◌≡◌, Bool, true, false, arith}
use ucli_server.Api.Grants.{Grant}
use ucli_server.Api.Grants.Status.{
  GrantStatus, deleted, disabled, expired, bound, available, derive_device_grant_status,
}
use ucli_server.Api.Grants.Change.{status_where}

abbrev pub same_status : GrantStatus → GrantStatus → Bool
same_status deleted deleted = true
same_status disabled disabled = true
same_status expired expired = true
same_status bound bound = true
same_status available available = true
same_status _ _ = false

-- The filter of a status lists a grant exactly where the grant has that status at that time.
pub status_where-status :
    (s : GrantStatus) (g : Grant) (now : ℕ)
    → status_where s now g ≡ same_status s (derive_device_grant_status g now)
unfolding status_where derive_device_grant_status
status_where-status deleted g now = ground arith
status_where-status disabled g now = ground arith
status_where-status expired g now = ground arith
status_where-status bound g now = ground arith
status_where-status available g now = ground arith
