-- ===== src/Budget/Group/Admin.antt =====
-- packages/quota/src/group-budget.service.ts: the administrator's operations `adjust`, `configure` and
-- `reconcile`. The `before` and `after` parts of their snapshots are not in the model.
use text.Mathlib.Text.{◌==◌ as str_eq}
use ucli_server.Base.{
  ℕ, ◌+◌, Bool, true, false, ◌&&◌, ◌||◌, not, Option, none, some, String, ltb, ◌==◌, if◌then◌else◌,
  is_none,
}
use ucli_server.Base.Table.{find?, replace}
use ucli_server.Base.Lists.{any}
use ucli_server.Budget.Result.{
  Result, ok, ◌>>=◌, ◌>>◌, require, or_throw, if_found, bad_request, forbidden, not_found, conflict,
}
use ucli_server.Budget.Money.{Amount, cny}
use ucli_server.Budget.Ledger.{
  Mode, whole, monthly, Principal, Group, Period, Entry, Application, ApplicationStatus, registered,
  linked, Db, limit_adjustment, is_reserved, is_reconciling, is_request, is_admin,
}
use ucli_server.Budget.Ledger.Store.{
  Calendar, Fingerprint, OperationInput, Scope, current, default, adjusting, configuring,
  find_period, put_period, budget_period_key, alert, empty_snapshot, operation, adjustment,
}
use ucli_server.Budget.Group.Rules.{lock_usage_group, new_period, period}

abbrev pub is_registered : ApplicationStatus → Bool
is_registered registered = true
is_registered _ = false

abbrev pub same_mode : Mode → Mode → Bool
same_mode whole whole = true
same_mode monthly monthly = true
same_mode _ _ = false

abbrev pub is_current : Scope → Bool
is_current current = true
is_current default = false

unfoldable pub put_group : Db → Group → Db
put_group db g = record db { groups = replace (λ h. h.id == g.id) g db.groups }

unfoldable pub put_application : Db → Application → Db
put_application db a = record db { applications = replace (λ b. b.id == a.id) a db.applications }

pub record AdjustInput : Type 0 where
  pub operation_input : OperationInput
  pub scope : Scope
  pub period_id : Option ℕ
  pub limit_cny : Amount
  pub unlimited : Bool
  pub application_id : Option ℕ

-- The application that `adjust` approves, which must be open.
unfoldable pub open_application : Db → ℕ → ℕ → Option ℕ → Result (Option Application)
open_application db organization group_id none = ok none
open_application db organization group_id (some k) = do
  a ←
      or_throw
        (find? (λ a. a.id == k && a.organization_id == organization && a.owner_id == group_id)
          db.applications)
        not_found
  require (is_registered a.status) conflict
  ok (some a)

-- `status: 'LINKED'` on the approved application.
unfoldable pub link_application : Db → Option Application → ℕ → ℕ → ℕ → ℕ → Db
unfolding put_application
link_application db none amount actor now entry_id = db
link_application db (some a) amount actor now entry_id = put_application db (record a {
  status = linked;
  approved_cny = some amount;
  decided_by_id = some actor;
  decided_at = some now;
  linked_entry_id = some entry_id;
})

-- The limit of the current period, never below what is spent and reserved, or the group's default.
unfoldable pub write_limit : Db → Group → Period → Scope → ℕ → Bool → Result Db
unfolding put_period put_group alert
write_limit db group p current amount unlimited = do
  require (unlimited || not (ltb amount (p.spent_cny + p.reserved_cny))) conflict
  (_, db₁) ← alert (put_period db (record p { limit_cny = amount; unlimited = unlimited })) p.id
  ok db₁
write_limit db group p default amount unlimited =
    ok (put_group db (record group { default_limit_cny = amount; unlimited = unlimited }))

module _ (calendar : Calendar) (fingerprint : Fingerprint) where
  unfoldable pub adjusted_period : Db → Principal → Group → Option ℕ → ℕ → ℕ → Result (Period × Db)
  unfolding period find_period
  adjusted_period db actor group none now new_period = period calendar db group now new_period
  adjusted_period db actor group (some k) now new_period = do
    p ←
        or_throw
          (find?
            (λ p. p.id == k && p.owner_id == group.id && p.organization_id == actor.organization_id)
            db.periods)
          not_found
    ok (p, db)

  unfoldable pub adjust_new :
      Db → Principal → Group → AdjustInput → ℕ → ℕ → ℕ → ℕ → ℕ → Result (Entry × Db)
  unfolding open_application adjusted_period write_limit adjustment link_application
  adjust_new db actor group input amount hash now new_entry new_period = do
    require (is_none group.archived_at) conflict
    application ← open_application db actor.organization_id group.id input.application_id
    (p, db₁) ← adjusted_period db actor group input.period_id now new_period
    db₂ ← write_limit db₁ group p input.scope amount input.unlimited
    (entry, db₃) ←
        adjustment db₂ actor p input.operation_input limit_adjustment
          (record empty_snapshot { operation_fingerprint = some hash }) new_entry
    ok (entry, link_application db₃ application amount actor.sub now entry.id)

  -- `adjust`.
  unfoldable pub adjust : Db → Principal → ℕ → AdjustInput → ℕ → ℕ → ℕ → Result (Entry × Db)
  unfolding lock_usage_group operation adjust_new
  adjust db actor group_id input now new_entry new_period = do
    require (is_admin actor.role) forbidden
    amount ← cny input.limit_cny
    require (is_current input.scope || is_none input.period_id) bad_request
    require (is_none input.application_id || is_current input.scope) bad_request
    group ← lock_usage_group db actor.organization_id group_id
    let hash = fingerprint (
        adjusting group_id actor.sub input.operation_input input.scope input.period_id amount
          input.unlimited input.application_id)
    existing ← operation db actor input.operation_input hash
    if_found existing (λ e. ok (e, db))
        (adjust_new db actor group input amount hash now new_entry new_period)

  -- The requests that keep a group from another period: `occupied`.
  unfoldable pub is_occupied : Db → ℕ → ℕ → String → Entry → Bool
  unfolding find_period
  is_occupied db group_id period_id key e =
      e.owner_id == group_id
      && is_request e.kind
      && (e.period_id == period_id
          || is_reserved e.status
          || is_reconciling e.status
          || has_key (find_period db e.period_id))
    where
      has_key : Option Period → Bool
      has_key none = false
      has_key (some p) = str_eq p.period_key key

  unfoldable pub assert_unoccupied : Db → Group → Period → Mode → String → ℕ → Result (Unit {0})
  unfolding budget_period_key is_occupied
  assert_unoccupied db group p mode timezone now =
      if same_mode mode group.budget_mode && str_eq timezone group.budget_timezone
      then ok tt
      else do
        key ← budget_period_key calendar mode timezone now
        require (not (any (is_occupied db group.id p.id key) db.entries)) conflict

  unfoldable pub configure_new :
      Db
      → Principal
      → Group
      → OperationInput
      → Mode
      → String
      → ℕ
      → ℕ
      → ℕ
      → ℕ
      → ℕ
      → Result (Entry × Db)
  unfolding period assert_unoccupied put_group put_period adjustment
  configure_new db actor group input mode timezone hash now new_entry new_period new_target = do
    require (is_none group.archived_at) conflict
    (p, db₁) ← period calendar db group now new_period
    assert_unoccupied db₁ group p mode timezone now
    let changed : Group = record group { budget_mode = mode; budget_timezone = timezone }
    (target, db₂) ← period calendar (put_group db₁ changed) changed now new_target
    adjustment (put_period db₂ (record target { timezone = timezone })) actor p input
        limit_adjustment (record empty_snapshot { operation_fingerprint = some hash }) new_entry

  -- `configure`.
  unfoldable pub configure :
      Db → Principal → ℕ → OperationInput → Mode → String → ℕ → ℕ → ℕ → ℕ → Result (Entry × Db)
  unfolding budget_period_key lock_usage_group operation configure_new
  configure db actor group_id input mode timezone now new_entry new_period new_target = do
    require (is_admin actor.role) forbidden
    _ ← budget_period_key calendar mode timezone now
    group ← lock_usage_group db actor.organization_id group_id
    let hash = fingerprint (configuring group_id actor.sub input mode timezone)
    existing ← operation db actor input hash
    if_found existing (λ e. ok (e, db))
        (configure_new db actor group input mode timezone hash now new_entry new_period new_target)
