-- ===== src/Budget/Project/Reserve.antt =====
-- packages/quota/src/project-budget.service.ts: `reserve`. A call is one transaction: it returns the new
-- database, or throws and changes nothing.
use ucli_server.Base.{
  Bool, Option, String, false, if◌then◌else◌, is_none, ltb, none, same_option, some, true, ℕ, ◌&&◌,
  ◌+◌, ◌==◌,
}
use ucli_server.Budget.Ledger.Store.{
  Calendar, Fingerprint, empty_snapshot, find_operation, project_reservation,
}
use ucli_server.Budget.Ledger.{
  request, Db, Device, EmployeeKey, Entry, Identity, Period, Project, ProjectMember, ProjectRole,
  Reservation, Usage, is_api_key, reserved, viewer,
}
use ucli_server.Budget.Result.{Result, forbidden, if_found, ok, require, unauthorized, ◌>>=◌, ◌>>◌}
use ucli_server.Base.Lists.{any}
use ucli_server.Budget.Ledger.Booking.{book, request_operation, reserve_again}
use ucli_server.Budget.Money.{cny, Amount}
use ucli_server.Budget.Project.Rules.{is_reservable, lock_project, period}
use ucli_server.Budget.Group.Reserve.{matches_id}

pub record ReserveInput : Type 0 where
  pub request_id : String
  pub identity : Identity
  pub project_id : ℕ
  pub started_at : ℕ
  pub estimate_cny : Amount
  pub usage : Option Usage

-- A member of the project who may spend its budget.
unfoldable pub is_spender : Project → Identity → ProjectMember → Bool
is_spender project identity m =
    m.project_id == project.id
    && m.account_id == identity.sub
    && not_viewer m.role
    && m.membership_active
    && m.account_active
  where
    not_viewer : ProjectRole → Bool
    not_viewer viewer = false
    not_viewer _ = true

abbrev pub is_unexpired : ℕ → Option ℕ → Bool
is_unexpired now none = true
is_unexpired now (some t) = ltb now t

unfoldable pub is_project_key : Project → Identity → ℕ → EmployeeKey → Bool
is_project_key project identity now k =
    matches_id identity.api_key_id k.id
    && k.organization_id == identity.organization_id
    && k.account_id == identity.sub
    && k.group_id == project.region_id
    && same_option k.project_id (some project.id)
    && is_none k.revoked_at
    && is_none k.deleted_at
    && is_none k.disabled_at
    && is_unexpired now k.expires_at

unfoldable pub is_project_device : Project → Identity → ℕ → Device → Bool
is_project_device project identity now d =
    matches_id identity.device_id d.id
    && d.organization_id == identity.organization_id
    && d.account_id == identity.sub
    && is_none d.revoked_at
    && d.has_grant
    && same_option d.grant_project_id (some project.id)
    && same_option d.grant_group_id (some project.region_id)
    && is_none d.grant_disabled_at
    && is_none d.grant_deleted_at
    && is_unexpired now d.grant_expires_at

-- The credential that the request came with.
unfoldable pub assert_credential : Db → Project → Identity → ℕ → Result (Unit {0})
unfolding is_project_key is_project_device
assert_credential db project identity now =
    if is_api_key identity.credential_type
    then require (any (is_project_key project identity now) db.keys) unauthorized
    else require (any (is_project_device project identity now) db.devices) unauthorized

-- The row that `reserve` creates.
unfoldable pub reserved_entry : ReserveInput → Project → Period → ℕ → ℕ → ℕ → ℕ → Entry
reserved_entry input project p amount hash new_id now = record {
  id = new_id;
  organization_id = input.identity.organization_id;
  owner_id = project.id;
  period_id = p.id;
  request_id = some input.request_id;
  operation_id = request_operation input.request_id;
  kind = request;
  status = reserved;
  account_id = some input.identity.sub;
  credential_type = some input.identity.credential_type;
  credential_id = (elim input.identity.api_key_id [
    | none ↦ input.identity.device_id
    | some k ↦ some k
  ]);
  reserved_cny = amount;
  settled_cny = 0;
  dispatched_at = none;
  lease_until = some (now + 60000);
  reason = none;
  actor_account_id = none;
  snapshot = record empty_snapshot {
    usage = input.usage;
    region_id = some project.region_id;
    initial_estimate_cny = amount;
    reservation_fingerprint = some hash;
  };
}

-- The tests of `reserve` on the project, the member and the credential.
unfoldable pub admit : Db → ReserveInput → ℕ → Result Project
unfolding lock_project is_reservable is_spender assert_credential
admit db input now = do
  project ← lock_project db input.identity.organization_id input.project_id
  require (is_reservable db project) forbidden
  require (project.region_id == input.identity.group_id) forbidden
  require (any (is_spender project input.identity) db.project_members) forbidden
  assert_credential db project input.identity now
  ok project

module _ (calendar : Calendar) (fingerprint : Fingerprint) where
  unfoldable pub reserve_new :
      Db → Project → ReserveInput → ℕ → ℕ → ℕ → ℕ → ℕ → Result (Reservation × Db)
  unfolding period book reserved_entry
  reserve_new db project input amount hash now new_entry new_period = do
    (p, db₁) ← period calendar db project input.started_at new_period
    book db₁ p amount (reserved_entry input project p amount hash new_entry now)

  -- `reserve`, at the time `now`, with the identifiers that new rows get.
  unfoldable pub reserve : Db → ReserveInput → ℕ → ℕ → ℕ → Result (Reservation × Db)
  unfolding admit reserve_again reserve_new find_operation
  reserve db input now new_entry new_period = do
    amount ← cny input.estimate_cny
    let hash = fingerprint (
        project_reservation input.request_id input.project_id input.identity input.started_at amount
          input.usage)
    project ← admit db input now
    if_found (find_operation db (request_operation input.request_id)) (λ e. reserve_again db e hash)
        (reserve_new db project input amount hash now new_entry new_period)
