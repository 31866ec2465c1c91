-- ===== src/Budget/Project/History.antt =====
-- The calls on the ledger of packages/quota/src/project-budget.service.ts, one transaction after another.
use ucli_server.Budget.Project.Applications.{
  AdjustInput, adjust, create_application, reject_application, submit_and_approve,
}
use ucli_server.Budget.Money.{Amount}
use ucli_server.Budget.Ledger.{Attempt, Db, Principal, Reservation, Usage}
use ucli_server.Budget.Ledger.Balance.{Balanced}
use ucli_server.Base.{Bool, List, Option, String, ℕ, ◌∷◌, []}
use ucli_server.Budget.Ledger.Store.{Calendar, Fingerprint, OperationInput}
use ucli_server.Budget.Project.Reserve.{ReserveInput, reserve}
use ucli_server.Budget.Project.Keeps.{
  adjust-Keeps, create_application-Keeps, reject_application-Keeps, reserve-Keeps,
  submit_and_approve-Keeps,
}
use ucli_server.Budget.Ledger.Commit.{committed, committed-Balanced}
use ucli_server.Budget.Project.Requests.{
  extend, hold, mark_dispatched, mark_uncertain, recover_expired, release, settle,
}
use ucli_server.Budget.Ledger.Balance.Requests.{
  extend-Keeps, hold-Keeps, mark_dispatched-Keeps, mark_uncertain-Keeps, release-Keeps,
  settle-Keeps,
}
use ucli_server.Budget.Project.Rules.{project_rules}
use ucli_server.Budget.Ledger.Balance.Recovery.{recover_expired-Balanced}

-- A call with the time and the identifiers that it gets.
pub data ProjectCall : Type 0 where
  reserves : ReserveInput → ℕ → ℕ → ℕ → ProjectCall
  extends : Reservation → Amount → Attempt → ProjectCall
  settles : Reservation → Amount → Usage → ProjectCall
  holds : Reservation → Amount → Amount → Usage → String → ProjectCall
  releases : Reservation → String → ProjectCall
  dispatches : Reservation → ℕ → ℕ → Option Attempt → ProjectCall
  doubts : Reservation → String → ProjectCall
  recovers : ℕ → ProjectCall
  adjusts : Principal → ℕ → AdjustInput → ℕ → ℕ → ℕ → ProjectCall
  registers : Principal → ℕ → Amount → String → Option ℕ → ℕ → ProjectCall
  submits : Principal → ℕ → OperationInput → Amount → Bool → ℕ → ℕ → ℕ → ℕ → ProjectCall
  rejects : Principal → ℕ → ℕ → Option String → ℕ → ProjectCall

module _ (calendar : Calendar) (fingerprint : Fingerprint) where
  unfoldable pub step_project : Db → ProjectCall → Db
  unfolding committed
  step_project db (reserves input now k j) =
      committed db (reserve calendar fingerprint db input now k j)
  step_project db (extends ref additional attempt) =
      committed db (extend fingerprint db ref additional attempt)
  step_project db (settles ref actual usage) = committed db (settle fingerprint db ref actual usage)
  step_project db (holds ref actual unresolved usage reason) =
      committed db (hold fingerprint db ref actual unresolved usage reason)
  step_project db (releases ref reason) = committed db (release db ref reason)
  step_project db (dispatches ref lease now attempt) =
      committed db (mark_dispatched db ref lease now attempt)
  step_project db (doubts ref reason) = committed db (mark_uncertain db ref reason)
  step_project db (recovers now) = (recover_expired db now).1
  step_project db (adjusts actor project_id input now k j) =
      committed db (adjust calendar fingerprint db actor project_id input now k j)
  step_project db (registers actor project_id amount reason applicant k) =
      committed db (create_application db actor project_id amount reason applicant k)
  step_project db (submits actor project_id input amount unlimited now k j i) =
      committed db (
        submit_and_approve calendar fingerprint db actor project_id input amount unlimited now k j
          i)
  step_project db (rejects actor project_id k decision now) =
      committed db (reject_application db actor project_id k decision now)

  unfoldable pub run_project : Db → List ProjectCall → Db
  unfolding step_project
  run_project db [] = db
  run_project db (c ∷ cs) = run_project (step_project db c) cs

  step_project-Balanced : (db : Db) (c : ProjectCall) → Balanced db → Balanced (step_project db c)
  unfolding step_project extend settle hold release mark_dispatched mark_uncertain recover_expired
  step_project-Balanced db (reserves input now k j) b =
      committed-Balanced db _ b (reserve-Keeps calendar fingerprint db input now k j b)
  step_project-Balanced db (extends ref additional attempt) b =
      committed-Balanced db _ b (extend-Keeps project_rules fingerprint db ref additional attempt b)
  step_project-Balanced db (settles ref actual usage) b =
      committed-Balanced db _ b (settle-Keeps project_rules fingerprint db ref actual usage b)
  step_project-Balanced db (holds ref actual unresolved usage reason) b =
      committed-Balanced db _ b
        (hold-Keeps project_rules fingerprint db ref actual unresolved usage reason b)
  step_project-Balanced db (releases ref reason) b =
      committed-Balanced db _ b (release-Keeps project_rules db ref reason b)
  step_project-Balanced db (dispatches ref lease now attempt) b =
      committed-Balanced db _ b (mark_dispatched-Keeps project_rules db ref lease now attempt b)
  step_project-Balanced db (doubts ref reason) b =
      committed-Balanced db _ b (mark_uncertain-Keeps project_rules db ref reason b)
  step_project-Balanced db (recovers now) b = recover_expired-Balanced project_rules db now b
  step_project-Balanced db (adjusts actor project_id input now k j) b =
      committed-Balanced db _ b
        (adjust-Keeps calendar fingerprint db actor project_id input now k j b)
  step_project-Balanced db (registers actor project_id amount reason applicant k) b =
      committed-Balanced db _ b
        (create_application-Keeps db actor project_id amount reason applicant k b)
  step_project-Balanced db (submits actor project_id input amount unlimited now k j i) b =
      committed-Balanced db _ b (
        submit_and_approve-Keeps calendar fingerprint db actor project_id input amount unlimited now
          k j i b)
  step_project-Balanced db (rejects actor project_id k decision now) b =
      committed-Balanced db _ b (reject_application-Keeps db actor project_id k decision now b)

  -- From a balanced database of projects, after any sequence of calls, failing ones included: each
  -- period's reserved column is the sum of the reservations of its open entries, its spent column the
  -- sum of what its entries have settled, an entry that has not been charged stands at 0, and period
  -- identifiers are distinct.
  pub run_project-Balanced :
      (db : Db) (cs : List ProjectCall) → Balanced db → Balanced (run_project db cs)
  unfolding run_project
  run_project-Balanced db [] b = b
  run_project-Balanced db (c ∷ cs) b =
      run_project-Balanced (step_project db c) cs (step_project-Balanced db c b)
