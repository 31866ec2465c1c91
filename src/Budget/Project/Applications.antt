-- ===== src/Budget/Project/Applications.antt =====
-- packages/quota/src/project-budget.service.ts: the budget of a project as administrators set it, on
-- their own (`adjust`) or on an application (`createApplication`, `submitAndApprove`,
-- `rejectApplication`). The `before` and `after` parts of the snapshots are not in the model.
use text.Mathlib.Text.{◌==◌ as str_eq}
use ucli_server.Budget.Group.Admin.{is_registered, put_application}
use ucli_server.Budget.Money.{Amount, cny}
use ucli_server.Budget.Ledger.{
  Application, Db, Entry, Period, Principal, Project, Role, application_registered,
  application_rejected, is_admin, limit_adjustment, linked, platform_admin, registered, rejected,
}
use ucli_server.Base.{
  Bool, Option, String, false, if◌then◌else◌, is_some, leb, ltb, none, not, or_else, some, true, ℕ,
  ◌&&◌, ◌+◌, ◌==◌, ◌||◌, ◌∷◌,
}
use ucli_server.Budget.Ledger.Store.{
  Calendar, Fingerprint, OperationInput, adjustment, alert, empty_snapshot, operation,
  project_adjusting, put_period,
}
use ucli_server.Budget.Result.{
  Result, bad_request, conflict, err, forbidden, if_found, not_found, ok, or_throw, require,
  unique_violation, ◌>>=◌, ◌>>◌,
}
use ucli_server.Base.Lists.{any}
use ucli_server.Budget.Project.Rules.{assert_can_apply, is_archived, lock_project, period}
use ucli_server.Base.Text.{codes, is_blank, utf16_length}
use ucli_server.Base.Table.{find?}

pub record AdjustInput : Type 0 where
  pub operation_input : OperationInput
  pub requested_total_cny : Option Amount
  pub limit_cny : Amount
  pub unlimited : Bool
  pub application_id : Option ℕ

abbrev pub same_application : ℕ → ℕ → ℕ → Application → Bool
same_application organization project_id k a =
    a.id == k && a.organization_id == organization && a.owner_id == project_id

-- The application that `adjust` approves, which must be open.
unfoldable pub open_application : Db → ℕ → ℕ → Option ℕ → Result (Option Application)
open_application db organization project_id none = ok none
open_application db organization project_id (some k) = do
  a ← or_throw (find? (same_application organization project_id k) db.applications) not_found
  require (is_registered a.status) conflict
  ok (some a)

-- `status: 'LINKED'` on the approved application.
unfoldable pub link_application : Db → Option Application → ℕ → ℕ → ℕ → ℕ → Db
unfolding put_application
link_application db none amount actor now entry_id = db
link_application db (some a) amount actor now entry_id = put_application db (record a {
  status = linked;
  approved_cny = some amount;
  decided_by_id = some actor;
  decided_at = some now;
  linked_entry_id = some entry_id;
  self_approved = a.applicant_account_id == actor;
})

-- The limit of a period, never below what is spent and reserved.
unfoldable pub write_limit : Db → Period → ℕ → Bool → Result Db
unfolding put_period alert
write_limit db p amount unlimited = do
  require (unlimited || not (ltb amount (p.spent_cny + p.reserved_cny))) conflict
  (_, db₁) ← alert (put_period db (record p { limit_cny = amount; unlimited = unlimited })) p.id
  ok db₁

-- A new application: `create`, with its audit row.
unfoldable pub register : Db → Principal → ℕ → ℕ → ℕ → ℕ → Result Db
register db actor project_id applicant amount new_id =
    if is_some (find? (λ a. a.id == new_id) db.applications)
    then err unique_violation
    else ok (record db {
      applications =
          (record {
            id = new_id;
            organization_id = actor.organization_id;
            owner_id = project_id;
            applicant_account_id = applicant;
            requested_cny = amount;
            status = registered;
            approved_cny = none;
            decided_by_id = none;
            decided_at = none;
            decision_note = none;
            linked_entry_id = none;
            self_approved = false;
          })
          ∷ db.applications;
      audits = application_registered actor.sub new_id ∷ db.audits;
    })

module _ (calendar : Calendar) (fingerprint : Fingerprint) where
  unfoldable pub adjust_new :
      Db → Principal → Project → AdjustInput → ℕ → ℕ → ℕ → ℕ → ℕ → Result (Entry × Db)
  unfolding open_application period write_limit adjustment link_application
  adjust_new db actor project input amount hash now new_entry new_period = do
    require (not (is_archived project.status)) conflict
    application ← open_application db actor.organization_id project.id input.application_id
    (p, db₁) ← period calendar db project now new_period
    db₂ ← write_limit db₁ p amount input.unlimited
    (entry, db₃) ←
        adjustment db₂ actor p input.operation_input limit_adjustment
          (record empty_snapshot { operation_fingerprint = some hash }) new_entry
    ok (entry, link_application db₃ application amount actor.sub now entry.id)

  -- `adjustInTransaction`.
  unfoldable pub adjust_in_transaction :
      Db → Principal → ℕ → AdjustInput → ℕ → ℕ → ℕ → Result (Entry × Db)
  unfolding lock_project operation adjust_new
  adjust_in_transaction db actor project_id input now new_entry new_period = do
    amount ← cny input.limit_cny
    project ← lock_project db actor.organization_id project_id
    let hash = fingerprint (
        project_adjusting project_id actor.sub input.operation_input input.requested_total_cny
          amount input.unlimited input.application_id)
    existing ← operation db actor input.operation_input hash
    if_found existing (λ e. ok (e, db))
        (adjust_new db actor project input amount hash now new_entry new_period)

  -- `adjust`.
  unfoldable pub adjust : Db → Principal → ℕ → AdjustInput → ℕ → ℕ → ℕ → Result (Entry × Db)
  unfolding adjust_in_transaction
  adjust db actor project_id input now new_entry new_period = do
    require (is_admin actor.role) forbidden
    _ ← cny input.limit_cny
    adjust_in_transaction db actor project_id input now new_entry new_period

  -- `submitAndApprove`: an application and its approval in one transaction.
  unfoldable pub submit_and_approve :
      Db → Principal → ℕ → OperationInput → Amount → Bool → ℕ → ℕ → ℕ → ℕ → Result (Entry × Db)
  unfolding lock_project register adjust_in_transaction
  submit_and_approve db actor project_id input total unlimited now new_application new_entry
        new_period =
      do
        require (is_platform actor.role) forbidden
        amount ← cny total
        require (not (amount == 0)) bad_request
        project ← lock_project db actor.organization_id project_id
        require (not (is_archived project.status)) conflict
        db₁ ← register db actor project_id actor.sub amount new_application
        adjust_in_transaction db₁ actor project_id
            (record {
              operation_input = input;
              requested_total_cny = some total;
              limit_cny = total;
              unlimited = unlimited;
              application_id = some new_application;
            })
            now new_entry new_period
    where
      is_platform : Role → Bool
      is_platform platform_admin = true
      is_platform _ = false

-- `createApplication`.
unfoldable pub create_application :
    Db → Principal → ℕ → Amount → String → Option ℕ → ℕ → Result (Unit {0} × Db)
unfolding is_blank utf16_length lock_project assert_can_apply register
create_application db actor project_id requested reason applicant new_id = do
  amount ← cny requested
  require (not (amount == 0)) bad_request
  require (not (is_blank (codes reason)) && leb (utf16_length (codes reason)) 2000) bad_request
  project ← lock_project db actor.organization_id project_id
  require (not (is_archived project.status)) conflict
  assert_can_apply db actor project
  require
      (any
        (λ m.
          m.organization_id == actor.organization_id
          && m.account_id == or_else applicant actor.sub
          && m.active)
        db.memberships)
      forbidden
  db₁ ← register db actor project_id (or_else applicant actor.sub) amount new_id
  ok (tt, db₁)

-- The rows that `updateMany` of `rejectApplication` changes: an open one of that identifier.
unfoldable pub reject_open : Db → Principal → ℕ → Option Application → Option String → Result Db
unfolding put_application
reject_open db actor now none decision = err not_found
reject_open db actor now (some a) decision =
    if is_registered a.status
    then ok (
        put_application db (record a {
          status = rejected;
          decided_by_id = some actor.sub;
          decided_at = some now;
          decision_note = kept_note decision a.decision_note;
        }))
    else err conflict
  where
    kept_note : Option String → Option String → Option String
    kept_note none old = old
    kept_note (some n) old = if str_eq n "" then old else some n

-- `rejectApplication`.
unfoldable pub reject_application :
    Db → Principal → ℕ → ℕ → Option String → ℕ → Result (Unit {0} × Db)
unfolding utf16_length lock_project reject_open
reject_application db actor project_id application_id decision now = do
  require (is_admin actor.role) forbidden
  require (elim decision [ none ↦ true | some n ↦ leb (utf16_length (codes n)) 2000 ]) bad_request
  project ← lock_project db actor.organization_id project_id
  require (not (is_archived project.status)) conflict
  db₁ ←
      reject_open db actor now
        (find? (same_application actor.organization_id project_id application_id) db.applications)
        decision
  ok (tt, record db₁ { audits = application_rejected actor.sub application_id ∷ db₁.audits })
