-- ===== src/Budget/Group/History.antt =====
-- The calls on the group ledger, one transaction after another. The row locks on the group make the
-- transactions of a group run one at a time; a call that throws leaves the database as it was.
use ucli_server.Base.{ℕ, Option, List, [], ◌∷◌, String}
use ucli_server.Budget.Money.{Amount}
use ucli_server.Budget.Ledger.{Mode, Usage, Attempt, Principal, Db, Reservation}
use ucli_server.Budget.Ledger.Store.{Calendar, Fingerprint, OperationInput}
use ucli_server.Budget.Group.Reserve.{ReserveInput, reserve}
use ucli_server.Budget.Ledger.Settle.{settle, hold, release, mark_dispatched, mark_uncertain}
use ucli_server.Budget.Ledger.Recovery.{recover_expired}
use ucli_server.Budget.Group.Admin.{AdjustInput, adjust, configure}
use ucli_server.Budget.Group.Reconcile.{ReconcileInput, reconcile}
use ucli_server.Budget.Ledger.Balance.{Balanced}
use ucli_server.Budget.Ledger.Balance.Requests.{
  extend-Keeps, settle-Keeps, hold-Keeps, release-Keeps, mark_dispatched-Keeps,
  mark_uncertain-Keeps,
}
use ucli_server.Budget.Group.Keeps.{adjust-Keeps, configure-Keeps, reconcile-Keeps, reserve-Keeps}
use ucli_server.Budget.Ledger.Booking.{extend}
use ucli_server.Budget.Group.Rules.{group_rules}
use ucli_server.Budget.Ledger.Balance.Recovery.{recover_expired-Balanced}
use ucli_server.Budget.Ledger.Commit.{committed, committed-Balanced}

-- A call with the time and the identifiers that it gets.
pub data Call : Type 0 where
  reserves : ReserveInput → ℕ → ℕ → ℕ → Call
  extends : Reservation → Amount → Attempt → Call
  settles : Reservation → Amount → Usage → Call
  holds : Reservation → Amount → Amount → Usage → String → Call
  releases : Reservation → String → Call
  dispatches : Reservation → ℕ → ℕ → Option Attempt → Call
  doubts : Reservation → String → Call
  recovers : ℕ → Call
  adjusts : Principal → ℕ → AdjustInput → ℕ → ℕ → ℕ → Call
  configures : Principal → ℕ → OperationInput → Mode → String → ℕ → ℕ → ℕ → ℕ → Call
  reconciles : Principal → ℕ → ℕ → ReconcileInput → ℕ → Call

module _ (calendar : Calendar) (fingerprint : Fingerprint) where
  unfoldable pub step : Db → Call → Db
  unfolding committed
  step db (reserves input now k j) = committed db (reserve calendar fingerprint db input now k j)
  step db (extends ref additional attempt) =
      committed db (extend group_rules fingerprint db ref additional attempt)
  step db (settles ref actual usage) =
      committed db (settle group_rules fingerprint db ref actual usage)
  step db (holds ref actual unresolved usage reason) =
      committed db (hold group_rules fingerprint db ref actual unresolved usage reason)
  step db (releases ref reason) = committed db (release group_rules db ref reason)
  step db (dispatches ref lease now attempt) =
      committed db (mark_dispatched group_rules db ref lease now attempt)
  step db (doubts ref reason) = committed db (mark_uncertain group_rules db ref reason)
  step db (recovers now) = (recover_expired group_rules db now).1
  step db (adjusts actor group_id input now k j) =
      committed db (adjust calendar fingerprint db actor group_id input now k j)
  step db (configures actor group_id input mode timezone now k j i) =
      committed db (configure calendar fingerprint db actor group_id input mode timezone now k j i)
  step db (reconciles actor group_id entry_id input k) =
      committed db (reconcile fingerprint db actor group_id entry_id input k)

  unfoldable pub run : Db → List Call → Db
  unfolding step
  run db [] = db
  run db (c ∷ cs) = run (step db c) cs

  step-Balanced : (db : Db) (c : Call) → Balanced db → Balanced (step db c)
  unfolding step
  step-Balanced db (reserves input now k j) b =
      committed-Balanced db _ b (reserve-Keeps calendar fingerprint db input now k j b)
  step-Balanced db (extends ref additional attempt) b =
      committed-Balanced db _ b (extend-Keeps group_rules fingerprint db ref additional attempt b)
  step-Balanced db (settles ref actual usage) b =
      committed-Balanced db _ b (settle-Keeps group_rules fingerprint db ref actual usage b)
  step-Balanced db (holds ref actual unresolved usage reason) b =
      committed-Balanced db _ b
        (hold-Keeps group_rules fingerprint db ref actual unresolved usage reason b)
  step-Balanced db (releases ref reason) b =
      committed-Balanced db _ b (release-Keeps group_rules db ref reason b)
  step-Balanced db (dispatches ref lease now attempt) b =
      committed-Balanced db _ b (mark_dispatched-Keeps group_rules db ref lease now attempt b)
  step-Balanced db (doubts ref reason) b =
      committed-Balanced db _ b (mark_uncertain-Keeps group_rules db ref reason b)
  step-Balanced db (recovers now) b = recover_expired-Balanced group_rules db now b
  step-Balanced db (adjusts actor group_id input now k j) b =
      committed-Balanced db _ b
        (adjust-Keeps calendar fingerprint db actor group_id input now k j b)
  step-Balanced db (configures actor group_id input mode timezone now k j i) b =
      committed-Balanced db _ b
        (configure-Keeps calendar fingerprint db actor group_id input mode timezone now k j i b)
  step-Balanced db (reconciles actor group_id entry_id input k) b =
      committed-Balanced db _ b (reconcile-Keeps fingerprint db actor group_id entry_id input k b)

  -- From a balanced database, after any sequence of calls, failing ones included: each period's
  -- reserved column is the sum of the reservations of its open entries, its spent column the sum of
  -- what its entries have settled, an entry that has not been charged stands at 0, and period
  -- identifiers are distinct.
  pub run-Balanced : (db : Db) (cs : List Call) → Balanced db → Balanced (run db cs)
  unfolding run
  run-Balanced db [] b = b
  run-Balanced db (c ∷ cs) b = run-Balanced (step db c) cs (step-Balanced db c b)
