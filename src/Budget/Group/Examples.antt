-- ===== src/Budget/Group/Examples.antt =====
-- Runs of packages/quota/src/group-budget.service.ts on a small database: one group of one member.
use ucli_server.Base.{ℕ, ◌≡◌, refl, Bool, true, false, Option, none, some, List, [], ◌∷◌, ◌+◌}
use ucli_server.Budget.Result.{Result, ok, err, ◌>>=◌}
use ucli_server.Budget.Ensures.{Ensures}
use ucli_server.Budget.Money.{cny}
use ucli_server.Budget.Ledger.{
  Group, Usage, Db, Reservation, Identity, monthly, device, regional, region_unit,
}
use ucli_server.Budget.Ledger.Store.{Calendar, Fingerprint, Payload, find_operation, find_period}
use ucli_server.Budget.Group.Reserve.{ReserveInput, reserve, assert_live_key}
use ucli_server.Budget.Ledger.Settle.{settle, release}
use ucli_server.Budget.Ledger.Balance.{Balanced}
use ucli_server.Budget.Group.Funds.{reserve-Covered}
use ucli_server.Budget.Ledger.Funds.{CoveredAt}
use ucli_server.Budget.Group.Rules.{group_rules}
use ucli_server.Budget.Group.Retry.{reserve_retry}
use ucli_server.Budget.Group.History.{Call, run, run-Balanced}
use ucli_server.Budget.Ledger.Booking.{request_operation}

abbrev calendar : Calendar
calendar zone at = some ("2026", "07")

abbrev fingerprint : Fingerprint
fingerprint (Payload.reservation request identity at amount usage) = amount + at
fingerprint (Payload.extension k attempt) = k
fingerprint (Payload.settlement usage k) = k
fingerprint _ = 0

abbrev group : Group
group = record {
  id = 1;
  organization_id = 5;
  organization_enabled = true;
  enabled = true;
  archived_at = none;
  type = region_unit;
  org_type = regional;
  budget_mode = monthly;
  budget_timezone = "Asia/Shanghai";
  default_limit_cny = 1000000000;
  unlimited = false;
}

abbrev identity : Identity
identity = record {
  sub = 9;
  organization_id = 5;
  group_id = 1;
  credential_type = device;
  api_key_id = none;
  device_id = some 3;
}

abbrev db : Db
db = record {
  groups = group ∷ [];
  members =
      (record {
        organization_id = 5;
        account_id = 9;
        group_id = 1;
        is_leader = false;
        is_primary = true;
        joined_at = 0;
        removed_at = none;
        membership_active = true;
        account_active = true;
      })
      ∷ [];
  keys = [];
  projects = [];
  project_members = [];
  memberships = [];
  devices = [];
  periods = [];
  entries = [];
  usage_logs = [];
  applications = [];
  audits = [];
}

abbrev usage : Usage
usage = record {
  request_id = "r";
  organization_id = 5;
  account_id = 9;
  group_id = some 1;
  budget_project_id = none;
  credential_type = device;
  api_key_id = none;
  device_id = some 3;
  cost_cny = some 250000000;
  input_tokens = 100;
  output_tokens = 10;
  billing_state = none;
  routes = none;
}

-- 4.5 CNY.
abbrev input : ReserveInput
input = record {
  request_id = "r";
  identity = identity;
  started_at = 1000;
  estimate_cny = b'4' ∷ b'.' ∷ b'5' ∷ [];
  usage = none;
}

abbrev ref : Reservation
ref = record {
  id = 20;
  request_id = some "r";
  period_id = 30;
  owner_id = 1;
  reserved_cny = 450000000;
}

-- The request is admitted and settles 2.5 CNY; a release after it is refused.
abbrev calls : List Call
calls =
    Call.reserves input 1000 20 30
    ∷ Call.settles ref (b'2' ∷ b'.' ∷ b'5' ∷ []) usage
    ∷ Call.releases ref "late"
    ∷ []

db-Balanced : Balanced db
db-Balanced = record {
  held_sum = λ k. refl;
  paid_sum = λ k. refl;
  unpaid = tt;
  periods_distinct = tt;
}

abbrev spent : Option (ℕ × ℕ)
spent = elim (find_period (run calendar fingerprint db calls) 30) [
  | none ↦ none
  | some p ↦ some (p.spent_cny, p.reserved_cny)
]

run_test : spent ≡ some (250000000, 0)
unfolding run find_period release ◌>>=◌ settle cny reserve group_rules
run_test = refl

abbrev is_reserved_ref : Result (Reservation × Db) → Bool
is_reserved_ref (ok (r, d)) = true
is_reserved_ref (err x) = false

reserve_test : is_reserved_ref (reserve calendar fingerprint db input 1000 20 30) ≡ true
unfolding reserve ◌>>=◌ cny
reserve_test = refl

run-Balanced_example : Balanced (run calendar fingerprint db calls)
run-Balanced_example = run-Balanced calendar fingerprint db calls db-Balanced

no_operation : find_operation db (request_operation "r") ≡ none
unfolding find_operation
no_operation = refl

reserve-Covered_example :
    Ensures (λ r. CoveredAt r.0.period_id r.1) (reserve calendar fingerprint db input 1000 20 30)
reserve-Covered_example =
    reserve-Covered calendar fingerprint db input 1000 20 30 db-Balanced no_operation

live_later : assert_live_key db identity 9000 ≡ ok tt
unfolding assert_live_key
live_later = refl

reserve_retry_example :
    Ensures
      (λ r. reserve calendar fingerprint r.1 input 9000 21 31 ≡ ok r)
      (reserve calendar fingerprint db input 1000 20 30)
reserve_retry_example = reserve_retry calendar fingerprint db input 1000 9000 20 30 21 31 live_later
