-- ===== src/Budget/Ledger/Store.antt =====
-- packages/quota/src/group-budget.service.ts and project-budget.service.ts: the private helpers of the
-- two services and the queries they make (`operation`, `adjustment`, `period`, `checkFunds`, `alert`,
-- `locked`, `assertUsage`, `reference`), which are the same code on two sets of tables.
use Prim.Native.String.{◌++◌ as str_append}
use text.Mathlib.Text.{◌==◌ as str_eq}
use ucli_server.Base.{
  ℕ, ◌+◌, ◌-◌, ◌*◌, ◌/◌, ◌^◌, Bool, true, false, ◌&&◌, ◌||◌, not, Option, none, some, [], List, ◌∷◌,
  String, ltb, leb, ◌==◌, if◌then◌else◌, is_some, same_option,
}
use ucli_server.Base.Table.{find?, replace}
use ucli_server.Base.Text.{codes, is_uuid, is_blank, utf16_length}
use ucli_server.Budget.Result.{
  Result, ok, err, ◌>>=◌, ◌>>◌, require, or_throw, bad_request, not_found, conflict,
  budget_exceeded, check_violation, unique_violation,
}
use ucli_server.Budget.Money.{Amount}
use ucli_server.Budget.Ledger.{
  Mode, whole, monthly, Kind, settled, Principal, Group, Period, Usage, Attempt, QuotaActual,
  Snapshot, Entry, threshold_reached, adjusted, Db, Reservation, Identity, is_request,
}

-- What `Intl.DateTimeFormat` says of a time in a zone: the year and the month, or no such zone.
abbrev pub Calendar : Type 0
Calendar = String → ℕ → Option (String × String)

pub record OperationInput : Type 0 where
  pub operation_id : String
  pub reason : String

pub data Action : Type 0 where
  settle release : Action

pub data Scope : Type 0 where
  current default : Scope

-- The values that the service takes fingerprints of.
pub data Payload : Type 0 where
  reservation : String → Identity → ℕ → ℕ → Option Usage → Payload
  project_reservation : String → ℕ → Identity → ℕ → ℕ → Option Usage → Payload
  extension : ℕ → Attempt → Payload
  settlement : Usage → ℕ → Payload
  holding : Amount → Amount → Usage → String → Payload
  adjusting : ℕ → ℕ → OperationInput → Scope → Option ℕ → ℕ → Bool → Option ℕ → Payload
  project_adjusting : ℕ → ℕ → OperationInput → Option Amount → ℕ → Bool → Option ℕ → Payload
  configuring : ℕ → ℕ → OperationInput → Mode → String → Payload
  reconciling : ℕ → ℕ → OperationInput → ℕ → Action → ℕ → Option (List (ℕ × Amount)) → Payload

-- `fingerprint`: a SHA-256 of the canonical JSON of its argument.
abbrev pub Fingerprint : Type 0
Fingerprint = Payload → ℕ

abbrev pub same_text : Option String → Option String → Bool
same_text none none = true
same_text (some a) (some b) = str_eq a b
same_text _ _ = false

unfoldable pub find_group : Db → ℕ → Option Group
find_group db k = find? (λ g. g.id == k) db.groups

unfoldable pub find_period : Db → ℕ → Option Period
find_period db k = find? (λ p. p.id == k) db.periods

unfoldable pub find_entry : Db → ℕ → Option Entry
find_entry db k = find? (λ e. e.id == k) db.entries

unfoldable pub find_operation : Db → String → Option Entry
find_operation db o = find? (λ e. str_eq e.operation_id o) db.entries

unfoldable pub find_usage : Db → Option String → Option Usage
find_usage db request = find? (λ u. same_text (some u.request_id) request) db.usage_logs

unfoldable pub put_period : Db → Period → Db
put_period db p = record db { periods = replace (λ q. q.id == p.id) p db.periods }

unfoldable pub put_entry : Db → Entry → Db
put_entry db e = record db { entries = replace (λ o. o.id == e.id) e db.entries }

unfoldable pub put_usage : Db → Usage → Db
put_usage db u = record db {
  usage_logs = replace (λ o. str_eq o.request_id u.request_id) u db.usage_logs;
}

-- The primary key and the unique `operation_id`.
unfoldable pub create_entry : Db → Entry → Result Db
unfolding find_entry find_operation
create_entry db e =
    if is_some (find_entry db e.id) || is_some (find_operation db e.operation_id)
    then err unique_violation
    else ok (record db { entries = e ∷ db.entries })

unfoldable pub create_usage : Db → Usage → Result Db
unfolding find_usage
create_usage db u =
    if is_some (find_usage db (some u.request_id))
    then err unique_violation
    else ok (record db { usage_logs = u ∷ db.usage_logs })

-- A `DECIMAL(20,8)` column with a CHECK that it is at least 0, after `plus` is added and `minus`
-- taken away.
unfoldable pub shift : ℕ → ℕ → ℕ → Result ℕ
shift value plus minus =
    if leb minus (value + plus) && ltb (value + plus - minus) (10 ^ 20)
    then ok (value + plus - minus)
    else err check_violation

-- `reference`.
unfoldable pub reference : Entry → Reservation
reference e = record {
  id = e.id;
  request_id = e.request_id;
  period_id = e.period_id;
  owner_id = e.owner_id;
  reserved_cny = e.reserved_cny;
}

-- `budgetPeriodKey`.
unfoldable pub budget_period_key : Calendar → Mode → String → ℕ → Result String
budget_period_key calendar mode timezone at = do
  parts ← or_throw (calendar timezone at) bad_request
  ok (elim mode [ whole ↦ "TOTAL" | monthly ↦ str_append parts.0 (str_append "-" parts.1) ])

-- The `upsert` of `period`: the period that was found, or the new one.
unfoldable pub upsert_period : Db → Period → Option Period → Result (Period × Db)
unfolding find_period
upsert_period db new (some p) = ok (p, db)
upsert_period db new none =
    if is_some (find_period db new.id)
    then err unique_violation
    else ok (new, record db { periods = new ∷ db.periods })

-- `period`: the period of the owner's key, or a new row, which depends on the key.
unfoldable pub period_of :
    Calendar → Db → Mode → String → ℕ → (String → Period) → ℕ → Result (Period × Db)
unfolding budget_period_key upsert_period
period_of calendar db mode timezone owner_id new at = do
  key ← budget_period_key calendar mode timezone at
  upsert_period db (new key)
      (find? (λ p. p.owner_id == owner_id && str_eq p.period_key key) db.periods)

-- `limit - spent - reserved < amount`, on exact decimals.
unfoldable pub lacks_funds : Period → ℕ → Bool
lacks_funds p amount =
    not p.unlimited && (p.limit_cny == 0 || ltb p.limit_cny (amount + p.spent_cny + p.reserved_cny))

-- `checkFunds`.
unfoldable pub check_funds : Period → ℕ → Result (Unit {0})
unfolding lacks_funds
check_funds p amount = require (not (lacks_funds p amount)) budget_exceeded

unfoldable pub threshold : Period → ℕ
threshold p =
    if p.unlimited
    then 0
    else if leb p.limit_cny (p.spent_cny + p.reserved_cny)
    then 100
    else if leb (p.limit_cny * 8) ((p.spent_cny + p.reserved_cny) * 10)
    then 80
    else 0

unfoldable pub exceeds : Period → Bool
exceeds p = not p.unlimited && ltb p.limit_cny p.spent_cny

-- `alert`: the threshold rises once, with an audit row; the result is whether the limit is passed.
unfoldable pub alert : Db → ℕ → Result (Bool × Db)
unfolding find_period threshold exceeds put_period
alert db period_id = do
  p ← or_throw (find_period db period_id) not_found
  let audited = record db {
    audits = threshold_reached p.organization_id p.id (threshold p) ∷ db.audits;
  }
  ok (
    exceeds p,
    if ltb p.alerted_threshold (threshold p)
        then put_period audited (record p { alerted_threshold = threshold p })
        else db,
  )

-- What differs between the ledgers in the operations on a reservation: the lock of the owner's row, by
-- its organization and identifier, and whether a usage with an amount belongs to an entry.
pub record Rules : Type 0 where
  pub lock : Db → ℕ → ℕ → Result (Unit {0})
  pub usage_fits : Entry → Usage → ℕ → Bool

-- `locked`: the rows of a reservation, read again under the locks.
unfoldable pub locked :
    {A : Type 0} → Rules → Db → Reservation → (Entry → Period → Result (A × Db)) → Result (A × Db)
unfolding find_entry find_period
locked rules db ref change = do
  original ← or_throw (find_entry db ref.id) not_found
  require (is_request original.kind) not_found
  require (same_text original.request_id ref.request_id) not_found
  require (original.period_id == ref.period_id) not_found
  require (original.owner_id == ref.owner_id) not_found
  rules.lock db original.organization_id original.owner_id
  p ← or_throw (find_period db original.period_id) not_found
  change original p

-- `assertUsage`.
unfoldable pub assert_usage : Rules → Entry → Usage → ℕ → Result (Unit {0})
assert_usage rules e usage amount = require (rules.usage_fits e usage amount) conflict

-- `Math.ceil(amount * 1_000_000)`, in millionths of a CNY.
unfoldable pub ceil_micro : ℕ → ℕ
ceil_micro amount = (amount + 99) / 100

-- `redisActual`.
unfoldable pub redis_actual_of : Usage → ℕ → QuotaActual
unfolding ceil_micro
redis_actual_of usage amount = record {
  tokens = usage.input_tokens + usage.output_tokens;
  cost_micro = ceil_micro amount;
}

abbrev pub empty_snapshot : Snapshot
empty_snapshot = record {
  usage = none;
  region_id = none;
  initial_estimate_cny = 0;
  reservation_fingerprint = none;
  operation_fingerprint = none;
  settlement_fingerprint = none;
  hold_fingerprint = none;
  extensions = [];
  dispatch_intents = [];
  manual_final = false;
  exceeded = false;
  redis_actual = none;
  redis_correction = none;
  redis_synced = none;
}

-- `operation`: a repeated operation returns its row, another one under the same identifier throws.
unfoldable pub operation : Db → Principal → OperationInput → ℕ → Result (Option Entry)
unfolding find_operation is_uuid is_blank utf16_length
operation db actor input hash = do
  require (is_uuid (codes input.operation_id)) bad_request
  require (not (is_blank (codes input.reason))) bad_request
  require (leb (utf16_length (codes input.reason)) 2000) bad_request
  repeated (find_operation db input.operation_id)
  where
    repeated : Option Entry → Result (Option Entry)
    repeated none = ok none
    repeated (some e) =
        if e.organization_id == actor.organization_id
          && same_option e.snapshot.operation_fingerprint (some hash)
        then ok (some e)
        else err conflict

-- `adjustment`: the row and the audit row of an administrator's operation.
unfoldable pub adjustment :
    Db → Principal → Period → OperationInput → Kind → Snapshot → ℕ → Result (Entry × Db)
unfolding create_entry
adjustment db actor p input kind snapshot new_id = do
  let entry : Entry = record {
    id = new_id;
    organization_id = actor.organization_id;
    owner_id = p.owner_id;
    period_id = p.id;
    request_id = none;
    operation_id = input.operation_id;
    kind = kind;
    status = settled;
    account_id = none;
    credential_type = none;
    credential_id = none;
    reserved_cny = 0;
    settled_cny = 0;
    dispatched_at = none;
    lease_until = none;
    reason = some input.reason;
    actor_account_id = some actor.sub;
    snapshot = snapshot;
  }
  created ← create_entry db entry
  ok (entry, record created { audits = adjusted kind actor.sub new_id ∷ created.audits })
