-- ===== src/Budget/Group/Rules.antt =====
-- packages/quota/src/group-budget.service.ts: what is the group ledger's own in the operations on a
-- reservation, `lockUsageGroup` of packages/security/src/group-access.ts, `assertUsage` and `period`.
use ucli_server.Base.{Bool, String, if◌then◌else◌, or_else, same_option, some, ℕ, ◌&&◌, ◌==◌}
use ucli_server.Budget.Ledger.Store.{Calendar, Rules, find_group, period_of, same_text}
use ucli_server.Budget.Ledger.{Db, Entry, Group, Period, Usage, api_key, same_credential}
use ucli_server.Budget.Result.{Result, not_found, ok, or_throw, require, ◌>>=◌, ◌>>◌}

-- `lockUsageGroup`. The locks make a transaction on a group run alone.
unfoldable pub lock_usage_group : Db → ℕ → ℕ → Result Group
unfolding find_group
lock_usage_group db organization group_id = do
  group ← or_throw (find_group db group_id) not_found
  require (group.organization_id == organization) not_found
  ok group

-- `assertUsage`: the conditions on a usage.
unfoldable pub group_usage_fits : Entry → Usage → ℕ → Bool
group_usage_fits e usage amount =
    same_text (some usage.request_id) e.request_id
    && usage.organization_id == e.organization_id
    && same_option (some usage.account_id) e.account_id
    && same_option usage.group_id (some e.owner_id)
    && same_credential e.credential_type usage.credential_type
    && same_option
        (if same_credential e.credential_type api_key then usage.api_key_id else usage.device_id)
        e.credential_id
    && or_else usage.cost_cny 0 == amount

unfoldable pub group_rules : Rules
unfolding lock_usage_group group_usage_fits
group_rules = record {
  lock = λ db organization k. lock_usage_group db organization k >>= λ _. ok tt;
  usage_fits = group_usage_fits;
}

unfoldable pub new_period : Group → ℕ → String → Period
new_period group new_id key = record {
  id = new_id;
  organization_id = group.organization_id;
  owner_id = group.id;
  period_key = key;
  timezone = group.budget_timezone;
  unlimited = group.unlimited;
  limit_cny = group.default_limit_cny;
  spent_cny = 0;
  reserved_cny = 0;
  alerted_threshold = 0;
}

-- `period`.
unfoldable pub period : Calendar → Db → Group → ℕ → ℕ → Result (Period × Db)
unfolding period_of new_period
period calendar db group at new_id =
    period_of calendar db group.budget_mode group.budget_timezone group.id (new_period group new_id)
      at
