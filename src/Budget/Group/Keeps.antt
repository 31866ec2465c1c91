-- ===== src/Budget/Group/Keeps.antt =====
-- `reserve` and the administrator's operations of packages/quota/src/group-budget.service.ts, and the
-- accounting invariant.
use ucli_server.Base.{
  ℕ, ◌+◌, ◌≡◌, refl, Bool, true, false, ◌||◌, Option, none, some, List, String, arith, ◌==◌,
  if◌then◌else◌,
}
use ucli_server.Base.Table.{find?, find?-key}
use ucli_server.Budget.Result.{or_throw-eq-ok}
use ucli_server.Budget.Ensures.{
  Ensures, Ensures-ok, Ensures-bind, Ensures-require, Ensures-found, Ensures-then,
}
use ucli_server.Budget.Ledger.{
  Mode, Group, Period, Entry, Usage, Principal, Db, Application, is_reserved, is_reconciling,
  is_settled,
}
use ucli_server.Budget.Ledger.Store.{
  Calendar, Fingerprint, OperationInput, Scope, current, default, Action, put_usage, release,
  settle, reference,
}
use ucli_server.Budget.Group.Admin.{
  AdjustInput, put_group, link_application, put_application, write_limit, adjusted_period,
  adjust_new, adjust, configure_new, configure,
}
use ucli_server.Budget.Group.Reconcile.{
  ReconcileInput, RouteCost, write_log, reconcile_new, reconcile, status_of,
}
use ucli_server.Budget.Ledger.Balance.{
  Balanced, Balanced-same, put_period-Balanced, post-Balanced, is_open,
}
use ucli_server.Budget.Ledger.Balance.Helpers.{
  Keeps, shift-sum, alert-Keeps, locked-Keeps, Prepared, adjustment-Keeps, SameLedger,
  create_usage-same, period_of-Prepared,
}
use ucli_server.Budget.Ledger.Balance.Requests.{book-Keeps}
use ucli_server.Budget.Group.Reserve.{reserve, ReserveInput, reserve_new, reserved_entry}
use ucli_server.Budget.Group.Rules.{group_rules, new_period, period}
use ucli_server.Budget.Ledger.Booking.{reserve_again}

pub period-Prepared :
    (calendar : Calendar) (db : Db) (g : Group) (at new_id : ℕ)
    → Balanced db
    → Ensures Prepared (period calendar db g at new_id)
unfolding period new_period
period-Prepared calendar db g at new_id b =
    period_of-Prepared calendar db _ _ _ _ at b (λ _. refl) (λ _. refl)

write_limit-Keeps :
    (db : Db) (g : Group) (p : Period) (scope : Scope) (amount : ℕ) (unlimited : Bool)
    → Balanced db
    → find? (λ q. q.id == p.id) db.periods ≡ some p
    → Ensures Balanced (write_limit db g p scope amount unlimited)
unfolding write_limit put_group
write_limit-Keeps db g p current amount unlimited b stored = Ensures-require _ _ _ λ _.
    Ensures-then _ _ (alert-Keeps _ p.id (put_period-Balanced db p _ b stored refl refl refl))
      λ r _ kept. Ensures-ok _ kept
write_limit-Keeps db g p default amount unlimited b stored =
    Ensures-ok _ (Balanced-same db _ b refl refl)

link_application-Balanced :
    (db : Db) (a : Option Application) (amount actor now entry_id : ℕ)
    → Balanced db
    → Balanced (link_application db a amount actor now entry_id)
unfolding link_application put_application
link_application-Balanced db none amount actor now entry_id b = b
link_application-Balanced db (some a) amount actor now entry_id b = Balanced-same db _ b refl refl

module _ (calendar : Calendar) (fingerprint : Fingerprint) where
  adjusted_period-Prepared :
      (db : Db) (actor : Principal) (g : Group) (o : Option ℕ) (now new_period : ℕ)
      → Balanced db
      → Ensures Prepared (adjusted_period calendar fingerprint db actor g o now new_period)
  unfolding adjusted_period
  adjusted_period-Prepared db actor g none now new_period b =
      period-Prepared calendar db g now new_period b
  adjusted_period-Prepared db actor g (some k) now new_period b = Ensures-bind _ _ λ p found.
      Ensures-ok _ (record {
        balanced = b;
        stored =
            find?-key (λ r. r.id) _ db.periods p b.periods_distinct (or_throw-eq-ok _ _ p found);
      })

  -- `reserve` keeps the invariant.
  pub reserve-Keeps :
      (db : Db) (input : ReserveInput) (now new_entry new_period : ℕ)
      → Balanced db
      → Keeps (reserve calendar fingerprint db input now new_entry new_period)
  unfolding reserve reserve_again reserve_new reserved_entry
  reserve-Keeps db input now new_entry new_period b = Ensures-bind _ _ λ amount _.
      Ensures-bind _ _ λ g _. Ensures-bind _ _ λ _ _. Ensures-bind _ _ λ _ _.
        Ensures-found _ _ _ (λ e _. Ensures-bind _ _ λ _ _. Ensures-ok _ b)
          (λ _.
            Ensures-then _ _ (period-Prepared calendar db g input.started_at new_period b)
              λ r _ prepared. book-Keeps r.1 r.0 _ prepared.balanced prepared.stored refl refl refl)

  -- `adjust` keeps the invariant.
  pub adjust-Keeps :
      (db : Db) (actor : Principal) (group_id : ℕ) (input : AdjustInput)
      (now new_entry new_period : ℕ)
      → Balanced db
      → Keeps (adjust calendar fingerprint db actor group_id input now new_entry new_period)
  unfolding adjust adjust_new
  adjust-Keeps db actor group_id input now new_entry new_period b = Ensures-require _ _ _ λ _.
      Ensures-bind _ _ λ amount _. Ensures-require _ _ _ λ _. Ensures-require _ _ _ λ _.
        Ensures-bind _ _ λ g _. Ensures-bind _ _ λ existing _.
          Ensures-found _ _ _ (λ e _. Ensures-ok _ b)
            λ _. Ensures-require _ _ _ λ _. Ensures-bind _ _ λ application _.
              Ensures-then _ _
                (adjusted_period-Prepared db actor g input.period_id now new_period b)
                λ r _ ready.
                  Ensures-then _ _
                    (write_limit-Keeps r.1 g r.0 input.scope amount input.unlimited ready.balanced
                      ready.stored)
                    λ d _ kept.
                      Ensures-then _ _ (adjustment-Keeps d actor r.0 _ _ _ new_entry kept)
                        λ s _ done.
                          Ensures-ok _
                            (link_application-Balanced s.1 application amount actor.sub now _ done)

  -- `configure` keeps the invariant.
  pub configure-Keeps :
      (db : Db) (actor : Principal) (group_id : ℕ) (input : OperationInput) (mode : Mode)
      (timezone : String) (now new_entry new_period new_target : ℕ)
      → Balanced db
      → Keeps (
          configure calendar fingerprint db actor group_id input mode timezone now new_entry
            new_period new_target)
  unfolding configure configure_new put_group
  configure-Keeps db actor group_id input mode timezone now new_entry new_period new_target b =
      Ensures-require _ _ _ λ _. Ensures-bind _ _ λ _ _. Ensures-bind _ _ λ g _.
        Ensures-bind _ _ λ existing _.
          Ensures-found _ _ _ (λ e _. Ensures-ok _ b)
            λ _. Ensures-require _ _ _ λ _.
              Ensures-then _ _ (period-Prepared calendar db g now new_period b) λ r _ ready.
                Ensures-bind _ _ λ _ _.
                  Ensures-then _ _
                    (period-Prepared calendar _
                      (record g { budget_mode = mode; budget_timezone = timezone }) now new_target
                      (Balanced-same r.1 _ ready.balanced refl refl))
                    λ t _ target.
                      adjustment-Keeps _ actor r.0 _ _ _ new_entry
                        (put_period-Balanced t.1 t.0 _ target.balanced target.stored refl refl refl)

write_log-same :
    (db : Db) (e : Entry) (action : Action) (costs : List RouteCost) (amount : ℕ)
    (log : Option Usage)
    → Ensures (SameLedger db) (write_log db e action costs amount log)
unfolding write_log put_usage
write_log-same db e action costs amount none =
    Ensures-bind _ _ λ u _. Ensures-require _ _ _ λ _. create_usage-same db _
write_log-same db e action costs amount (some log) = Ensures-ok _ (refl, refl)

-- An entry that `reconcile` closes is open no more, and was settled or reconciling before.
reconciled-sum :
    (e : Entry) (action : Action) (before after : ℕ)
    → is_settled e.status || is_reconciling e.status ≡ true
    → after + (if is_reconciling e.status then e.reserved_cny else 0) ≡ before + 0
    → after + (if is_open e.status then e.reserved_cny else 0)
      ≡ before + (if is_open (status_of action) then e.reserved_cny else 0)
reconciled-sum e release before after closed h = ground arith
reconciled-sum e settle before after closed h = ground arith

reconciled-UnpaidIsZero :
    (action : Action) → is_reserved (status_of action) || is_reconciling (status_of action) ≡ false
reconciled-UnpaidIsZero release = refl
reconciled-UnpaidIsZero settle = refl

reconcile_new-Keeps :
    (db : Db) (actor : Principal) (e : Entry) (p : Period) (input : ReconcileInput)
    (amount hash new_entry : ℕ)
    → Balanced db
    → find? (λ r. r.id == e.id) db.entries ≡ some e
    → find? (λ r. r.id == p.id) db.periods ≡ some p
    → e.period_id ≡ p.id
    → Keeps (reconcile_new db actor e p input amount hash new_entry)
unfolding reconcile_new
reconcile_new-Keeps db actor e p input amount hash new_entry b found_entry found_period on_period =
    Ensures-require _ _ _ λ closed. Ensures-bind _ _ λ _ _. Ensures-bind _ _ λ _ _.
      Ensures-then _ _ (write_log-same db e input.action _ amount _) λ d _ same.
        Ensures-bind _ _ λ spent s. Ensures-bind _ _ λ left h.
          Ensures-then _ _
            (alert-Keeps _ p.id (
              post-Balanced d (Balanced-same db d b same.0 same.1) {p = p} {e = e}
                (rw same.0 found_period) (rw same.1 found_entry)
                (record {
                  same_id = refl;
                  same_entry = refl;
                  on_period = on_period;
                  stays = on_period;
                  reserves =
                      reconciled-sum e input.action p.reserved_cny left closed
                        (shift-sum p.reserved_cny 0 _ left h);
                  spends = ground (arith, shift-sum p.spent_cny amount e.settled_cny spent s);
                  unpaid = λ t. ground (arith, reconciled-UnpaidIsZero input.action);
                })))
            λ r _ kept. adjustment-Keeps r.1 actor p _ _ _ new_entry kept

-- `reconcile` keeps the invariant.
pub reconcile-Keeps :
    (fingerprint : Fingerprint) (db : Db) (actor : Principal) (group_id entry_id : ℕ)
    (input : ReconcileInput) (new_entry : ℕ)
    → Balanced db
    → Keeps (reconcile fingerprint db actor group_id entry_id input new_entry)
unfolding reconcile
reconcile-Keeps fingerprint db actor group_id entry_id input new_entry b =
    Ensures-require _ _ _ λ _. Ensures-bind _ _ λ amount _. Ensures-require _ _ _ λ _.
      Ensures-bind _ _ λ original _.
        locked-Keeps group_rules db (reference original) _ λ e p found_entry found_period on_period.
          Ensures-bind _ _ λ existing _.
            Ensures-found _ _ _ (λ done _. Ensures-ok _ b)
              λ _.
                reconcile_new-Keeps db actor e p input amount _ new_entry b found_entry found_period
                  on_period
