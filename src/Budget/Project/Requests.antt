-- ===== src/Budget/Project/Requests.antt =====
-- packages/quota/src/project-budget.service.ts: the operations on a reservation, by the project's rules.
use ucli_server.Budget.Ledger.Booking.{extend as extend_entry}
use ucli_server.Budget.Ledger.Settle.{
  settle as settle_entry, hold as hold_entry, release as release_by,
  mark_dispatched as dispatch_entry, mark_uncertain as doubt_entry,
}
use ucli_server.Budget.Ledger.Recovery.{recover_expired as recover_entries, Counts}
use ucli_server.Budget.Ledger.{Attempt, Db, Reservation, Usage}
use ucli_server.Base.{Bool, Option, String, ℕ}
use ucli_server.Budget.Ledger.Store.{Fingerprint}
use ucli_server.Budget.Result.{Result}
use ucli_server.Budget.Project.Rules.{project_rules}
use ucli_server.Budget.Money.{Amount}

module _ (fingerprint : Fingerprint) where
  unfoldable pub extend : Db → Reservation → Amount → Attempt → Result (Reservation × Db)
  unfolding extend_entry project_rules
  extend = extend_entry project_rules fingerprint

  unfoldable pub settle : Db → Reservation → Amount → Usage → Result (Bool × Db)
  unfolding settle_entry project_rules
  settle = settle_entry project_rules fingerprint

  unfoldable pub hold : Db → Reservation → Amount → Amount → Usage → String → Result (Unit {0} × Db)
  unfolding hold_entry project_rules
  hold = hold_entry project_rules fingerprint

unfoldable pub release : Db → Reservation → String → Result (Unit {0} × Db)
unfolding release_by project_rules
release = release_by project_rules

unfoldable pub mark_dispatched : Db → Reservation → ℕ → ℕ → Option Attempt → Result (Unit {0} × Db)
unfolding dispatch_entry project_rules
mark_dispatched = dispatch_entry project_rules

unfoldable pub mark_uncertain : Db → Reservation → String → Result (Unit {0} × Db)
unfolding doubt_entry project_rules
mark_uncertain = doubt_entry project_rules

unfoldable pub recover_expired : Db → ℕ → Result Counts × Db
unfolding recover_entries project_rules
recover_expired = recover_entries project_rules
