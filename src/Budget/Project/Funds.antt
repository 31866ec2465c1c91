-- ===== src/Budget/Project/Funds.antt =====
-- `reserve` and `adjust` of packages/quota/src/project-budget.service.ts, and what a period has and owes.
use ucli_server.Budget.Ledger.Balance.{Balanced}
use ucli_server.Budget.Ledger.Store.{Calendar, Fingerprint, find_operation}
use ucli_server.Budget.Ledger.Funds.{CoveredAt, book-Covered}
use ucli_server.Budget.Ledger.{Db}
use ucli_server.Budget.Ensures.{Ensures, Ensures-bind, Ensures-found, Ensures-then}
use ucli_server.Budget.Project.Reserve.{ReserveInput, reserve, reserve_new, reserved_entry}
use ucli_server.Base.{none, refl, ℕ, ◌≡◌}
use ucli_server.Budget.Project.Keeps.{period-Prepared}
use ucli_server.Budget.Ledger.Booking.{request_operation}

module _ (calendar : Calendar) (fingerprint : Fingerprint) where
  -- In a balanced database of projects, a request that is not a retry and gets its reservation leaves
  -- its period unlimited, or with all that is spent and reserved on it within the limit.
  pub reserve-CoveredAt :
      (db : Db) (input : ReserveInput) (now new_entry new_period : ℕ)
      → Balanced db
      → find_operation db (request_operation input.request_id) ≡ none
      → Ensures
          (λ r. CoveredAt r.0.period_id r.1)
          (reserve calendar fingerprint db input now new_entry new_period)
  unfolding reserve reserve_new reserved_entry
  reserve-CoveredAt db input now new_entry new_period b fresh = Ensures-bind _ _ λ amount _.
      Ensures-bind _ _ λ project _.
        Ensures-found _ _ _ (λ e found. absurd (cc))
          λ _.
            Ensures-then _ _ (period-Prepared calendar db project input.started_at new_period b)
              λ r _ ready. book-Covered r.1 r.0 amount _ ready.stored refl
