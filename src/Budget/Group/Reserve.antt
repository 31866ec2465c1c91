-- ===== src/Budget/Group/Reserve.antt =====
-- packages/quota/src/group-budget.service.ts: `reserve`, and `assertActiveGroupMember`
-- of packages/security/src/group-access.ts. A call is one transaction: it returns the new database,
-- or throws and changes nothing.
use ucli_server.Base.{
  ℕ, ◌+◌, Bool, true, false, ◌&&◌, Option, none, some, String, ltb, ◌==◌, if◌then◌else◌, is_none,
}
use ucli_server.Base.Lists.{any}
use ucli_server.Budget.Result.{Result, ok, ◌>>=◌, ◌>>◌, require, if_found, forbidden, unauthorized}
use ucli_server.Budget.Money.{Amount, cny}
use ucli_server.Budget.Ledger.{
  Group, Member, EmployeeKey, Period, Usage, Entry, Db, Reservation, Identity, request, reserved,
  is_api_key,
}
use ucli_server.Budget.Ledger.Store.{
  Calendar, Fingerprint, reservation, find_group, find_operation, empty_snapshot,
}
use ucli_server.Budget.Ledger.Booking.{book, request_operation, reserve_again}
use ucli_server.Budget.Group.Rules.{lock_usage_group, new_period, period}

-- `assertActiveGroupMember`: the query's conditions on one row.
unfoldable pub is_active_member : Db → Identity → Member → Bool
unfolding find_group
is_active_member db identity m =
    m.organization_id == identity.organization_id
    && m.account_id == identity.sub
    && m.group_id == identity.group_id
    && is_none m.removed_at
    && m.membership_active
    && m.account_active
    && group_is_open (find_group db m.group_id)
  where
    group_is_open : Option Group → Bool
    group_is_open none = false
    group_is_open (some g) = g.enabled && is_none g.archived_at && g.organization_enabled

unfoldable pub assert_active_group_member : Db → Identity → Result (Unit {0})
unfolding is_active_member
assert_active_group_member db identity =
    require (any (is_active_member db identity) db.members) forbidden

-- An absent identifier is no condition of the query.
abbrev pub matches_id : Option ℕ → ℕ → Bool
matches_id none k = true
matches_id (some a) k = k == a

unfoldable pub is_live_key : Identity → ℕ → EmployeeKey → Bool
is_live_key identity now k =
    matches_id identity.api_key_id k.id
    && k.organization_id == identity.organization_id
    && k.account_id == identity.sub
    && k.group_id == identity.group_id
    && is_none k.revoked_at
    && is_none k.deleted_at
    && is_none k.disabled_at
    && (elim k.expires_at [ none ↦ true | some t ↦ ltb now t ])

unfoldable pub assert_live_key : Db → Identity → ℕ → Result (Unit {0})
unfolding is_live_key
assert_live_key db identity now =
    if is_api_key identity.credential_type
    then require (any (is_live_key identity now) db.keys) unauthorized
    else ok tt

pub record ReserveInput : Type 0 where
  pub request_id : String
  pub identity : Identity
  pub started_at : ℕ
  pub estimate_cny : Amount
  pub usage : Option Usage

-- The row that `reserve` creates.
unfoldable pub reserved_entry : ReserveInput → Period → ℕ → ℕ → ℕ → ℕ → Entry
reserved_entry input p amount hash new_id now = record {
  id = new_id;
  organization_id = input.identity.organization_id;
  owner_id = p.owner_id;
  period_id = p.id;
  request_id = some input.request_id;
  operation_id = request_operation input.request_id;
  kind = request;
  status = reserved;
  account_id = some input.identity.sub;
  credential_type = some input.identity.credential_type;
  credential_id = (elim input.identity.api_key_id [
    | none ↦ input.identity.device_id
    | some k ↦ some k
  ]);
  reserved_cny = amount;
  settled_cny = 0;
  dispatched_at = none;
  lease_until = some (now + 60000);
  reason = none;
  actor_account_id = none;
  snapshot = record empty_snapshot {
    usage = input.usage;
    initial_estimate_cny = amount;
    reservation_fingerprint = some hash;
  };
}

module _ (calendar : Calendar) (fingerprint : Fingerprint) where
  unfoldable pub reserve_new :
      Db → Group → ReserveInput → ℕ → ℕ → ℕ → ℕ → ℕ → Result (Reservation × Db)
  unfolding period book reserved_entry
  reserve_new db group input amount hash now new_entry new_period = do
    (p, db₁) ← period calendar db group input.started_at new_period
    book db₁ p amount (reserved_entry input p amount hash new_entry now)

  -- `reserve`, at the time `now`, with the identifiers that new rows get.
  unfoldable pub reserve : Db → ReserveInput → ℕ → ℕ → ℕ → Result (Reservation × Db)
  unfolding lock_usage_group assert_active_group_member assert_live_key reserve_again reserve_new
      find_operation
  reserve db input now new_entry new_period = do
    amount ← cny input.estimate_cny
    let hash =
        fingerprint
          (reservation input.request_id input.identity input.started_at amount input.usage)
    group ← lock_usage_group db input.identity.organization_id input.identity.group_id
    assert_active_group_member db input.identity
    assert_live_key db input.identity now
    if_found (find_operation db (request_operation input.request_id)) (λ e. reserve_again db e hash)
        (reserve_new db group input amount hash now new_entry new_period)
