-- ===== src/Budget/Ledger/Balance/Recovery.antt =====
-- `recoverExpired` of the two budget services in packages/quota/src, and the accounting invariant.
use ucli_server.Budget.Ledger.Balance.{Balanced}
use ucli_server.Budget.Ledger.Recovery.{
  Counts, Recovered, after_entry, is_expired, recover_entry, recover_expired, recover_locked,
  recover_loop,
}
use ucli_server.Budget.Ledger.{Db, Entry, Period, is_reserved}
use ucli_server.Budget.Ensures.{Ensures-if, Ensures-ok, Ensures-then}
use ucli_server.Budget.Ledger.Balance.Helpers.{Keeps, locked-Keeps}
use ucli_server.Base.{List, [], arith, is_some, not, refl, some, ℕ, ◌==◌, ◌||◌, ◌∷◌, ◌≡◌}
use ucli_server.Budget.Result.{Result, err, ok}
use ucli_server.Budget.Ledger.Store.{Rules, reference}
use ucli_server.Base.Table.{find?}
use ucli_server.Budget.Ledger.Balance.Requests.{release_entry-Keeps, uncertain-Balanced}

recover_locked-Keeps :
    (db : Db) (now : ℕ) (e : Entry) (p : Period)
    → Balanced db
    → find? (λ r. r.id == e.id) db.entries ≡ some e
    → find? (λ r. r.id == p.id) db.periods ≡ some p
    → e.period_id ≡ p.id
    → Keeps (recover_locked db now e p)
unfolding recover_locked
recover_locked-Keeps db now e p b found_entry found_period on_period =
    Ensures-if (not (is_reserved e.status) || not (is_expired now e)) _ _ (λ _. Ensures-ok _ b)
      λ opened.
        Ensures-if (is_some e.dispatched_at) _ _
          (λ _. Ensures-ok _ (uncertain-Balanced db e _ b found_entry (ground arith)))
          λ _.
            Ensures-then _ _
              (release_entry-Keeps db e p _ b found_entry found_period on_period (ground arith))
              λ r _ kept. Ensures-ok _ kept

recover_entry-Keeps :
    (rules : Rules) (db : Db) (now : ℕ) (e : Entry)
    → Balanced db
    → Keeps (recover_entry rules db now e)
unfolding recover_entry
recover_entry-Keeps rules db now e b =
    locked-Keeps rules db (reference e) _ λ f p found_entry found_period on_period.
      recover_locked-Keeps db now f p b found_entry found_period on_period

after_entry-Balanced :
    (m : Result (Recovered × Db)) (db : Db) (c : Counts) (rest : Db → Counts → Result Counts × Db)
    → Balanced db
    → Keeps m
    → ((d : Db) (c' : Counts) → Balanced d → Balanced (rest d c').1)
    → Balanced (after_entry m db c rest).1
unfolding after_entry
after_entry-Balanced (ok (r, d)) db c rest b kept later = later d _ (kept.at (r, d) refl)
after_entry-Balanced (err x) db c rest b kept later = b

recover_loop-Balanced :
    (rules : Rules) (db : Db) (now : ℕ) (es : List Entry) (c : Counts)
    → Balanced db
    → Balanced (recover_loop rules db now es c).1
unfolding recover_loop
recover_loop-Balanced rules db now [] c b = b
recover_loop-Balanced rules db now (e ∷ es) c b =
    after_entry-Balanced (recover_entry rules db now e) db c _ b
      (recover_entry-Keeps rules db now e b) (λ d c' k. recover_loop-Balanced rules d now es c' k)

-- `recoverExpired` keeps the invariant, also where it throws half way.
pub recover_expired-Balanced :
    (rules : Rules) (db : Db) (now : ℕ) → Balanced db → Balanced (recover_expired rules db now).1
unfolding recover_expired
recover_expired-Balanced rules db now b = recover_loop-Balanced rules db now _ _ b
