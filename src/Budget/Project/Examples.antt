-- ===== src/Budget/Project/Examples.antt =====
-- Runs of packages/quota/src/project-budget.service.ts on a small database: one project of one member.
use ucli_server.Budget.Ledger.Balance.{Balanced}
use ucli_server.Budget.Ledger.Store.{
  Calendar, Fingerprint, OperationInput, Payload, find_operation, find_period,
}
use ucli_server.Budget.Ledger.Funds.{CoveredAt}
use ucli_server.Budget.Ledger.{
  Db, Entry, Group, Identity, Principal, Project, Usage, active, business, contributor, device,
  monthly, platform_admin, region_unit, regional, whole, Reservation,
}
use ucli_server.Budget.Ensures.{Ensures}
use ucli_server.Budget.Result.{Error, Result, conflict, err, ◌>>=◌, ok}
use ucli_server.Base.{List, Option, [], false, none, refl, some, true, ℕ, ◌+◌, ◌∷◌, ◌≡◌}
use ucli_server.Budget.Project.History.{ProjectCall, run_project, run_project-Balanced}
use ucli_server.Budget.Project.Reserve.{admit, ReserveInput, reserve}
use ucli_server.Budget.Money.{cny, Amount}
use ucli_server.Budget.Ledger.Commit.{committed}
use ucli_server.Budget.Ledger.Booking.{request_operation}
use ucli_server.Budget.Project.Funds.{reserve-CoveredAt}
use ucli_server.Budget.Project.Retry.{reserve_resent}
use ucli_server.Budget.Project.Applications.{submit_and_approve, AdjustInput, adjust}
use ucli_server.Budget.Project.Requests.{settle}

abbrev calendar : Calendar
calendar zone at = some ("2026", "07")

abbrev fingerprint : Fingerprint
fingerprint (Payload.project_reservation name project identity at amount usage) = amount + at
fingerprint (Payload.project_adjusting project actor input total amount unlimited none) = amount
fingerprint (Payload.project_adjusting project actor input total amount unlimited (some k)) =
    amount + k
fingerprint (Payload.settlement usage k) = k
fingerprint _ = 0

abbrev region_group : Group
region_group = record {
  id = 1;
  organization_id = 5;
  organization_enabled = true;
  enabled = true;
  archived_at = none;
  type = region_unit;
  org_type = regional;
  budget_mode = monthly;
  budget_timezone = "Asia/Shanghai";
  default_limit_cny = 0;
  unlimited = false;
}

abbrev project : Project
project = record {
  id = 6;
  organization_id = 5;
  region_id = 1;
  status = active;
  category = business;
  budget_mode = whole;
  budget_timezone = "Asia/Shanghai";
}

abbrev identity : Identity
identity = record {
  sub = 9;
  organization_id = 5;
  group_id = 1;
  credential_type = device;
  api_key_id = none;
  device_id = some 3;
}

abbrev db : Db
db = record {
  groups = region_group ∷ [];
  members = [];
  keys = [];
  projects = project ∷ [];
  project_members =
      (record {
        project_id = 6;
        account_id = 9;
        role = contributor;
        membership_active = true;
        account_active = true;
      })
      ∷ [];
  memberships = [];
  devices =
      (record {
        id = 3;
        organization_id = 5;
        account_id = 9;
        revoked_at = none;
        grant_project_id = some 6;
        grant_group_id = some 1;
        grant_disabled_at = none;
        grant_deleted_at = none;
        grant_expires_at = some 5000000;
        has_grant = true;
      })
      ∷ [];
  periods = [];
  entries = [];
  usage_logs = [];
  applications = [];
  audits = [];
}

abbrev admin : Principal
admin = record { sub = 2; organization_id = 5; role = platform_admin }

-- 10 CNY.
abbrev ten : Amount
ten = b'1' ∷ b'0' ∷ []

abbrev adjusting : AdjustInput
adjusting = record {
  operation_input = record {
    operation_id = "11111111-1111-4111-8111-111111111111";
    reason = "start";
  };
  requested_total_cny = none;
  limit_cny = ten;
  unlimited = false;
  application_id = none;
}

abbrev asked : OperationInput
asked = record { operation_id = "22222222-2222-4222-8222-222222222222"; reason = "more" }

-- 4.5 CNY.
abbrev input : ReserveInput
input = record {
  request_id = "r";
  identity = identity;
  project_id = 6;
  started_at = 1000;
  estimate_cny = b'4' ∷ b'.' ∷ b'5' ∷ [];
  usage = none;
}

abbrev ref : Reservation
ref = record {
  id = 20;
  request_id = some "r";
  period_id = 30;
  owner_id = 6;
  reserved_cny = 450000000;
}

abbrev usage : Usage
usage = record {
  request_id = "r";
  organization_id = 5;
  account_id = 9;
  group_id = some 1;
  budget_project_id = some 6;
  credential_type = device;
  api_key_id = none;
  device_id = some 3;
  cost_cny = some 250000000;
  input_tokens = 100;
  output_tokens = 10;
  billing_state = none;
  routes = none;
}

-- A request finds no funds, a limit is set, the request is admitted and settles 2.5 CNY.
abbrev calls : List ProjectCall
calls =
    ProjectCall.reserves input 1000 20 30
    ∷ ProjectCall.adjusts admin 6 adjusting 1000 21 30
    ∷ ProjectCall.reserves input 1000 20 31
    ∷ ProjectCall.settles ref (b'2' ∷ b'.' ∷ b'5' ∷ []) usage
    ∷ []

db-Balanced : Balanced db
db-Balanced = record {
  held_sum = λ k. refl;
  paid_sum = λ k. refl;
  unpaid = tt;
  periods_distinct = tt;
}

abbrev ready : Db
ready = run_project calendar fingerprint db (ProjectCall.adjusts admin 6 adjusting 1000 21 30 ∷ [])

ready-Balanced : Balanced ready
ready-Balanced = run_project-Balanced calendar fingerprint db _ db-Balanced

abbrev spent : Option (ℕ × ℕ)
spent = elim (find_period (run_project calendar fingerprint db calls) 30) [
  | none ↦ none
  | some p ↦ some (p.spent_cny, p.reserved_cny)
]

run_project_test : spent ≡ some (250000000, 0)
unfolding run_project find_period ◌>>=◌ settle cny reserve adjust
run_project_test = refl

run_project-Balanced_example : Balanced (run_project calendar fingerprint db calls)
run_project-Balanced_example = run_project-Balanced calendar fingerprint db calls db-Balanced

no_operation : find_operation ready (request_operation "r") ≡ none
unfolding find_operation run_project ◌>>=◌ cny adjust
no_operation = refl

reserve-CoveredAt_example :
    Ensures (λ r. CoveredAt r.0.period_id r.1) (reserve calendar fingerprint ready input 1000 20 31)
reserve-CoveredAt_example =
    reserve-CoveredAt calendar fingerprint ready input 1000 20 31 ready-Balanced no_operation

admitted_later : admit ready input 9000 ≡ ok project
unfolding admit run_project ◌>>=◌ cny adjust
admitted_later = refl

reserve_resent_example :
    Ensures
      (λ r. reserve calendar fingerprint r.1 input 9000 22 32 ≡ ok r)
      (reserve calendar fingerprint ready input 1000 20 31)
reserve_resent_example =
    reserve_resent calendar fingerprint ready input 1000 9000 20 31 22 32 project admitted_later

abbrev answers : {A : Type 0} → Result A → Option Error
answers (ok a) = none
answers (err x) = some x

abbrev submit : Db → ℕ → ℕ → Result (Entry × Db)
submit d k j = submit_and_approve calendar fingerprint d admin 6 asked ten false 1000 k j 33

submit_test : answers (submit ready 40 50) ≡ none
unfolding submit_and_approve ◌>>=◌ cny run_project adjust
submit_test = refl

-- `submitAndApprove` under the same operation makes another application first, which the fingerprint of
-- the operation covers: the repeated call throws.
submit_again_test : answers (submit (committed ready (submit ready 40 50)) 41 51) ≡ some conflict
unfolding submit_and_approve ◌>>=◌ cny committed run_project adjust
submit_again_test = refl
