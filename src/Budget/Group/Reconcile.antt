-- ===== src/Budget/Group/Reconcile.antt =====
-- packages/quota/src/group-budget.service.ts: `reconcile`, by which an administrator states what a
-- finished or uncertain request cost. The `before` and `after` parts of its snapshot are not in the
-- model; the routes' costs enter as texts, like the other amounts.
use ucli_server.Base.{
  ℕ, ◌+◌, Bool, true, false, ◌&&◌, ◌||◌, not, Option, none, some, List, [], ◌∷◌, ◌==◌,
  if◌then◌else◌, is_some, or_else, same_option, map,
}
use ucli_server.Base.Table.{find?}
use ucli_server.Base.Lists.{length, any, every}
use ucli_server.Budget.Result.{
  Result, ok, err, ◌>>=◌, ◌>>◌, require, or_throw, if_found, bad_request, forbidden, not_found,
  conflict,
}
use ucli_server.Budget.Money.{Amount, cny}
use ucli_server.Budget.Ledger.{
  Principal, Period, Route, Usage, Entry, Billing, confirmed, no_charge, Db, settled, released,
  cost_adjustment, is_settled, is_reconciling, is_request, same_credential, api_key, is_admin,
  Status, Snapshot,
}
use ucli_server.Budget.Ledger.Store.{
  Fingerprint, OperationInput, Action, settle, release, reconciling, same_text, find_usage,
  put_period, put_entry, put_usage, create_usage, shift, reference, alert, locked, ceil_micro,
  empty_snapshot, operation, adjustment,
}
use ucli_server.Budget.Group.Rules.{group_rules}

pub record ReconcileInput : Type 0 where
  pub operation_input : OperationInput
  pub actual_cny : Amount
  pub action : Action
  pub routes : Option (List (ℕ × Amount))

abbrev pub is_release : Action → Bool
is_release release = true
is_release settle = false

abbrev pub billing_of : Action → Billing
billing_of release = no_charge
billing_of settle = confirmed

abbrev pub status_of : Action → Status
status_of release = released
status_of settle = settled

-- A route and its cost, with the exception that reading the cost throws.
abbrev pub RouteCost : Type 0
RouteCost = ℕ × Result ℕ

abbrev pub log_routes : Option Usage → List Route
log_routes none = []
log_routes (some log) = or_else log.routes []

-- `routeCosts`: as given, or the whole amount on the only route.
unfoldable pub route_costs : Option (List (ℕ × Amount)) → List Route → ℕ → List RouteCost
unfolding cny
route_costs (some given) routes amount = map (λ r. (r.0, cny r.1)) given
route_costs none (r ∷ []) amount = (r.id, ok amount) ∷ []
route_costs none _ amount = []

unfoldable pub distinct_ids : List RouteCost → Bool
distinct_ids [] = true
distinct_ids (r ∷ rs) = not (any (λ q. q.0 == r.0) rs) && distinct_ids rs

unfoldable pub sum_costs : List RouteCost → Result ℕ
sum_costs [] = ok 0
sum_costs ((k, c) ∷ rs) = do cost ← c; rest ← sum_costs rs; ok (cost + rest)

-- The costs must cover the routes of the log, one each, and add up to the amount.
unfoldable pub check_routes : Option Usage → List RouteCost → ℕ → Result (Unit {0})
unfolding distinct_ids sum_costs
check_routes log costs amount =
    if length (log_routes log) == 0 && length costs == 0 then ok tt else do
      require (is_some log) conflict
      require (length costs == length (log_routes log)) conflict
      require (distinct_ids costs) conflict
      require (every (λ c. any (λ r. r.id == c.0) (log_routes log)) costs) conflict
      sum ← sum_costs costs
      require (sum == amount) conflict

unfoldable pub priced_route : Action → List RouteCost → Route → Route
priced_route action costs r = elim (find? (λ c. c.0 == r.id) costs) [
  | none ↦ r
  | some (_, ok c) ↦ record r { cost_cny = some c; billing_state = billing_of action }
  | some (_, err e) ↦ r
]

-- The log belongs to the entry.
unfoldable pub log_fits : Entry → Usage → Bool
log_fits e log =
    log.organization_id == e.organization_id
    && same_option (some log.account_id) e.account_id
    && same_option log.group_id (some e.owner_id)

-- The usage of the request's snapshot belongs to the entry.
unfoldable pub snapshot_fits : Entry → Usage → Bool
unfolding log_fits
snapshot_fits e usage =
    same_text (some usage.request_id) e.request_id
    && log_fits e usage
    && same_credential e.credential_type usage.credential_type
    && same_option
        (if same_credential e.credential_type api_key then usage.api_key_id else usage.device_id)
        e.credential_id

unfoldable pub assert_log : Entry → Option Usage → Result (Unit {0})
unfolding log_fits
assert_log e none = ok tt
assert_log e (some log) = require (log_fits e log) conflict

unfoldable pub write_log : Db → Entry → Action → List RouteCost → ℕ → Option Usage → Result Db
unfolding put_usage priced_route snapshot_fits create_usage
write_log db e action costs amount (some log) = ok (
    put_usage db (record log {
      cost_cny = some amount;
      billing_state = some (billing_of action);
      routes = some (map (priced_route action costs) (log_routes (some log)));
    }))
write_log db e action costs amount none = do
  usage ← or_throw e.snapshot.usage conflict
  require (snapshot_fits e usage) conflict
  create_usage db
      (record usage { cost_cny = some amount; billing_state = some (billing_of action) })

-- The snapshot of a reconciled entry.
unfoldable pub final_snapshot : Entry → ReconcileInput → ℕ → Option Usage → Snapshot
unfolding ceil_micro
final_snapshot e input amount log = record e.snapshot {
  manual_final = true;
  redis_correction = some (record {
    operation_id = input.operation_input.operation_id;
    version = (elim e.snapshot.redis_correction [ none ↦ 0 | some c ↦ c.version ]) + 1;
    cost_micro = ceil_micro amount;
  });
  redis_synced = some false;
  redis_actual = (elim e.snapshot.redis_actual [
    | some a ↦ some a
    | none ↦ some (record {
      tokens = (elim log [ none ↦ 0 | some l ↦ l.input_tokens + l.output_tokens ]);
      cost_micro = ceil_micro amount;
    })
  ]);
}

unfoldable pub reconcile_new :
    Db → Principal → Entry → Period → ReconcileInput → ℕ → ℕ → ℕ → Result (Entry × Db)
unfolding find_usage assert_log route_costs check_routes write_log shift put_period put_entry
    final_snapshot alert adjustment
reconcile_new db actor e p input amount hash new_entry = do
  require (is_settled e.status || is_reconciling e.status) conflict
  let log = find_usage db e.request_id
  assert_log e log
  let costs = route_costs input.routes (log_routes log) amount
  check_routes log costs amount
  db₁ ← write_log db e input.action costs amount log
  spent ← shift p.spent_cny amount e.settled_cny
  held ← shift p.reserved_cny 0 (if is_reconciling e.status then e.reserved_cny else 0)
  let db₂ = put_period db₁ (record p { spent_cny = spent; reserved_cny = held })
  let db₃ = put_entry db₂ (record e {
    status = status_of input.action;
    settled_cny = amount;
    lease_until = none;
    reason = some input.operation_input.reason;
    snapshot = final_snapshot e input amount log;
  })
  (_, db₄) ← alert db₃ p.id
  adjustment db₄ actor p input.operation_input cost_adjustment
      (record empty_snapshot { operation_fingerprint = some hash }) new_entry

module _ (fingerprint : Fingerprint) where
  -- `reconcile`.
  unfoldable pub reconcile : Db → Principal → ℕ → ℕ → ReconcileInput → ℕ → Result (Entry × Db)
  unfolding reference locked group_rules operation reconcile_new
  reconcile db actor group_id entry_id input new_entry = do
    require (is_admin actor.role) forbidden
    amount ← cny input.actual_cny
    require (not (is_release input.action) || amount == 0) bad_request
    original ←
        or_throw
          (find?
            (λ e.
              e.id == entry_id
              && e.owner_id == group_id
              && e.organization_id == actor.organization_id
              && is_request e.kind)
            db.entries)
          not_found
    let hash = fingerprint (
        reconciling group_id actor.sub input.operation_input entry_id input.action amount
          input.routes)
    locked group_rules db (reference original) λ e p. do
      existing ← operation db actor input.operation_input hash
      if_found existing (λ done. ok (done, db))
          (reconcile_new db actor e p input amount hash new_entry)
