-- ===== src/Budget/Project/Keeps.antt =====
-- `reserve` and the administrator's operations of packages/quota/src/project-budget.service.ts, and the
-- accounting invariant.
use ucli_server.Budget.Project.Applications.{
  AdjustInput, adjust, adjust_in_transaction, adjust_new, create_application, link_application,
  register, reject_application, reject_open, submit_and_approve, write_limit,
}
use ucli_server.Budget.Money.{Amount}
use ucli_server.Budget.Ledger.{Application, Db, Period, Principal, Project}
use ucli_server.Budget.Ledger.Balance.{Balanced, Balanced-same, put_period-Balanced}
use ucli_server.Base.{Bool, Option, String, is_some, none, refl, some, ℕ, ◌==◌, ◌≡◌}
use ucli_server.Budget.Ledger.Store.{Calendar, Fingerprint, OperationInput}
use ucli_server.Budget.Ensures.{
  Ensures, Ensures-bind, Ensures-err, Ensures-found, Ensures-if, Ensures-ok, Ensures-require,
  Ensures-then,
}
use ucli_server.Budget.Ledger.Balance.Helpers.{
  Keeps, Prepared, adjustment-Keeps, alert-Keeps, period_of-Prepared,
}
use ucli_server.Budget.Project.Reserve.{ReserveInput, reserve, reserve_new, reserved_entry}
use ucli_server.Budget.Ledger.Balance.Requests.{book-Keeps}
use ucli_server.Base.Table.{find?}
use ucli_server.Budget.Group.Admin.{is_registered, put_application}
use ucli_server.Budget.Project.Rules.{new_period, period}
use ucli_server.Budget.Ledger.Booking.{reserve_again}

pub period-Prepared :
    (calendar : Calendar) (db : Db) (project : Project) (at new_id : ℕ)
    → Balanced db
    → Ensures Prepared (period calendar db project at new_id)
unfolding period new_period
period-Prepared calendar db project at new_id b =
    period_of-Prepared calendar db _ _ _ _ at b (λ _. refl) (λ _. refl)

write_limit-Keeps :
    (db : Db) (p : Period) (amount : ℕ) (unlimited : Bool)
    → Balanced db
    → find? (λ q. q.id == p.id) db.periods ≡ some p
    → Ensures Balanced (write_limit db p amount unlimited)
unfolding write_limit
write_limit-Keeps db p amount unlimited b stored = Ensures-require _ _ _ λ _.
    Ensures-then _ _ (alert-Keeps _ p.id (put_period-Balanced db p _ b stored refl refl refl))
      λ r _ kept. Ensures-ok _ kept

link_application-Balanced :
    (db : Db) (a : Option Application) (amount actor now entry_id : ℕ)
    → Balanced db
    → Balanced (link_application db a amount actor now entry_id)
unfolding link_application put_application
link_application-Balanced db none amount actor now entry_id b = b
link_application-Balanced db (some a) amount actor now entry_id b = Balanced-same db _ b refl refl

register-Keeps :
    (db : Db) (actor : Principal) (project_id applicant amount new_id : ℕ)
    → Balanced db
    → Ensures Balanced (register db actor project_id applicant amount new_id)
unfolding register
register-Keeps db actor project_id applicant amount new_id b =
    Ensures-if (is_some (find? (λ a. a.id == new_id) db.applications)) _ _ (λ _. Ensures-err _)
      λ _. Ensures-ok _ (Balanced-same db _ b refl refl)

reject_open-Keeps :
    (db : Db) (actor : Principal) (now : ℕ) (a : Option Application) (decision : Option String)
    → Balanced db
    → Ensures Balanced (reject_open db actor now a decision)
unfolding reject_open put_application
reject_open-Keeps db actor now none decision b = Ensures-err _
reject_open-Keeps db actor now (some a) decision b =
    Ensures-if (is_registered a.status) _ _ (λ _. Ensures-ok _ (Balanced-same db _ b refl refl))
      (λ _. Ensures-err _)

-- `createApplication` and `rejectApplication` keep the invariant.
pub create_application-Keeps :
    (db : Db) (actor : Principal) (project_id : ℕ) (requested : Amount) (reason : String)
    (applicant : Option ℕ) (new_id : ℕ)
    → Balanced db
    → Keeps (create_application db actor project_id requested reason applicant new_id)
unfolding create_application
create_application-Keeps db actor project_id requested reason applicant new_id b =
    Ensures-bind _ _ λ amount _. Ensures-require _ _ _ λ _. Ensures-require _ _ _ λ _.
      Ensures-bind _ _ λ project _. Ensures-require _ _ _ λ _. Ensures-bind _ _ λ _ _.
        Ensures-require _ _ _ λ _.
          Ensures-then _ _ (register-Keeps db actor project_id _ amount new_id b)
            λ d _ kept. Ensures-ok _ kept

pub reject_application-Keeps :
    (db : Db) (actor : Principal) (project_id application_id : ℕ) (decision : Option String)
    (now : ℕ)
    → Balanced db
    → Keeps (reject_application db actor project_id application_id decision now)
unfolding reject_application
reject_application-Keeps db actor project_id application_id decision now b =
    Ensures-require _ _ _ λ _. Ensures-require _ _ _ λ _. Ensures-bind _ _ λ project _.
      Ensures-require _ _ _ λ _.
        Ensures-then _ _ (reject_open-Keeps db actor now _ decision b)
          λ d _ kept. Ensures-ok _ (Balanced-same d _ kept refl refl)

module _ (calendar : Calendar) (fingerprint : Fingerprint) where
  -- `reserve` keeps the invariant.
  pub reserve-Keeps :
      (db : Db) (input : ReserveInput) (now new_entry new_period : ℕ)
      → Balanced db
      → Keeps (reserve calendar fingerprint db input now new_entry new_period)
  unfolding reserve reserve_again reserve_new reserved_entry
  reserve-Keeps db input now new_entry new_period b = Ensures-bind _ _ λ amount _.
      Ensures-bind _ _ λ project _.
        Ensures-found _ _ _ (λ e _. Ensures-bind _ _ λ _ _. Ensures-ok _ b)
          (λ _.
            Ensures-then _ _ (period-Prepared calendar db project input.started_at new_period b)
              λ r _ prepared. book-Keeps r.1 r.0 _ prepared.balanced prepared.stored refl refl refl)

  adjust_in_transaction-Keeps :
      (db : Db) (actor : Principal) (project_id : ℕ) (input : AdjustInput)
      (now new_entry new_period : ℕ)
      → Balanced db
      → Keeps (
          adjust_in_transaction calendar fingerprint db actor project_id input now new_entry
            new_period)
  unfolding adjust_in_transaction adjust_new
  adjust_in_transaction-Keeps db actor project_id input now new_entry new_period b =
      Ensures-bind _ _ λ amount _. Ensures-bind _ _ λ project _. Ensures-bind _ _ λ existing _.
        Ensures-found _ _ _ (λ e _. Ensures-ok _ b)
          λ _. Ensures-require _ _ _ λ _. Ensures-bind _ _ λ application _.
            Ensures-then _ _ (period-Prepared calendar db project now new_period b) λ r _ ready.
              Ensures-then _ _
                (write_limit-Keeps r.1 r.0 amount input.unlimited ready.balanced ready.stored)
                λ d _ kept.
                  Ensures-then _ _ (adjustment-Keeps d actor r.0 _ _ _ new_entry kept) λ s _ done.
                    Ensures-ok _
                      (link_application-Balanced s.1 application amount actor.sub now _ done)

  -- `adjust` and `submitAndApprove` keep the invariant.
  pub adjust-Keeps :
      (db : Db) (actor : Principal) (project_id : ℕ) (input : AdjustInput)
      (now new_entry new_period : ℕ)
      → Balanced db
      → Keeps (adjust calendar fingerprint db actor project_id input now new_entry new_period)
  unfolding adjust
  adjust-Keeps db actor project_id input now new_entry new_period b = Ensures-require _ _ _ λ _.
      Ensures-bind _ _
        λ _ _. adjust_in_transaction-Keeps db actor project_id input now new_entry new_period b

  pub submit_and_approve-Keeps :
      (db : Db) (actor : Principal) (project_id : ℕ) (input : OperationInput) (amount : Amount)
      (unlimited : Bool) (now new_application new_entry new_period : ℕ)
      → Balanced db
      → Keeps (
          submit_and_approve calendar fingerprint db actor project_id input amount unlimited now
            new_application new_entry new_period)
  unfolding submit_and_approve
  submit_and_approve-Keeps db actor project_id input amount unlimited now new_application new_entry
        new_period b =
      Ensures-require _ _ _ λ _. Ensures-bind _ _ λ total _. Ensures-require _ _ _ λ _.
        Ensures-bind _ _ λ project _. Ensures-require _ _ _ λ _.
          Ensures-then _ _ (register-Keeps db actor project_id actor.sub total new_application b)
            λ d _ kept.
              adjust_in_transaction-Keeps d actor project_id _ now new_entry new_period kept
