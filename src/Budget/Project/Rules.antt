-- ===== src/Budget/Project/Rules.antt =====
-- packages/quota/src/project-budget.service.ts: `lockProject`, `assertReservable`, `assertCanApply`,
-- `assertUsage` and `period`.
use ucli_server.Base.{
  Bool, Option, String, false, if◌then◌else◌, is_none, is_some, none, or_else, same_option, some,
  true, ℕ, ◌&&◌, ◌==◌, ◌||◌,
}
use ucli_server.Budget.Ledger.Store.{Calendar, Rules, find_group, period_of, same_text}
use ucli_server.Budget.Ledger.{
  Db, Entry, Group, OrgType, Period, Principal, Project, ProjectCategory, ProjectRole,
  ProjectStatus, UnitType, Usage, active, api_key, archived, department, executive, functional,
  is_admin, owner, region_unit, same_credential, business,
}
use ucli_server.Budget.Result.{Result, forbidden, not_found, ok, or_throw, require, ◌>>=◌, ◌>>◌}
use ucli_server.Base.Lists.{any}
use ucli_server.Base.Table.{find?}

unfoldable pub find_project : Db → ℕ → Option Project
find_project db k = find? (λ r. r.id == k) db.projects

-- `lockProject`. The lock makes the transactions on a project run one at a time.
unfoldable pub lock_project : Db → ℕ → ℕ → Result Project
unfolding find_project
lock_project db organization project_id = do
  project ← or_throw (find_project db project_id) not_found
  require (project.organization_id == organization) not_found
  ok project

abbrev pub is_active : ProjectStatus → Bool
is_active active = true
is_active _ = false

abbrev pub is_archived : ProjectStatus → Bool
is_archived archived = true
is_archived _ = false

abbrev pub is_department : ProjectCategory → Bool
is_department department = true
is_department business = false

-- The unit that owns a project of a category.
abbrev pub owner_valid : ProjectCategory → Group → Bool
owner_valid department region = is_office region.org_type
  where
    is_office : OrgType → Bool
    is_office functional = true
    is_office executive = true
    is_office _ = false
owner_valid business region = is_region region.type
  where
    is_region : UnitType → Bool
    is_region region_unit = true
    is_region _ = false

-- `assertReservable`. A foreign key makes the region of a project exist.
unfoldable pub is_reservable : Db → Project → Bool
unfolding find_group
is_reservable db project = elim (find_group db project.region_id) [
  | none ↦ false
  | some region ↦
      is_active project.status
      && owner_valid project.category region
      && region.enabled
      && is_none region.archived_at
]

-- `assertCanApply`, for one who is no administrator.
unfoldable pub is_applicant : Db → Principal → Project → Bool
is_applicant db actor project =
    any
      (λ m.
        m.project_id == project.id
        && m.account_id == actor.sub
        && (is_department project.category || is_owner m.role)
        && m.membership_active
        && m.account_active)
      db.project_members
    || (is_department project.category
        && any
            (λ m.
              m.group_id == project.region_id
              && m.account_id == actor.sub
              && m.is_leader
              && is_none m.removed_at
              && m.membership_active
              && m.account_active)
            db.members)
  where
    is_owner : ProjectRole → Bool
    is_owner owner = true
    is_owner _ = false

unfoldable pub assert_can_apply : Db → Principal → Project → Result (Unit {0})
unfolding is_applicant
assert_can_apply db actor project =
    require (is_admin actor.role || is_applicant db actor project) forbidden

-- `assertUsage`: the conditions on a usage.
unfoldable pub project_usage_fits : Entry → Usage → ℕ → Bool
project_usage_fits e usage amount =
    same_text (some usage.request_id) e.request_id
    && usage.organization_id == e.organization_id
    && same_option (some usage.account_id) e.account_id
    && is_some e.snapshot.region_id
    && same_option usage.group_id e.snapshot.region_id
    && same_option usage.budget_project_id (some e.owner_id)
    && same_credential e.credential_type usage.credential_type
    && same_option
        (if same_credential e.credential_type api_key then usage.api_key_id else usage.device_id)
        e.credential_id
    && or_else usage.cost_cny 0 == amount

unfoldable pub project_rules : Rules
unfolding lock_project project_usage_fits
project_rules = record {
  lock = λ db organization k. lock_project db organization k >>= λ _. ok tt;
  usage_fits = project_usage_fits;
}

-- A new period has no limit to spend, until an administrator sets one.
unfoldable pub new_period : Project → ℕ → String → Period
new_period project new_id key = record {
  id = new_id;
  organization_id = project.organization_id;
  owner_id = project.id;
  period_key = key;
  timezone = project.budget_timezone;
  unlimited = false;
  limit_cny = 0;
  spent_cny = 0;
  reserved_cny = 0;
  alerted_threshold = 0;
}

-- `period`.
unfoldable pub period : Calendar → Db → Project → ℕ → ℕ → Result (Period × Db)
unfolding period_of new_period
period calendar db project at new_id =
    period_of calendar db project.budget_mode project.budget_timezone project.id
      (new_period project new_id) at
