-- ===== src/Budget/Ledger/Balance/Requests.antt =====
-- The operations on a reservation that the two budget services in packages/quota/src share, and the
-- accounting invariant.
use ucli_server.Base.{
  ℕ, ◌+◌, ◌≡◌, refl, true, ◌&&◌, ◌||◌, Option, none, some, String, arith, ◌==◌, is_none,
  if◌then◌else◌, same_option,
}
use ucli_server.Base.Table.{find?}
use ucli_server.Budget.Ensures.{
  Ensures, Ensures-ok, Ensures-if, Ensures-bind, Ensures-require, Ensures-found, Ensures-then,
}
use ucli_server.Budget.Money.{Amount}
use ucli_server.Budget.Ledger.{
  Period, Entry, Usage, Attempt, Db, Reservation, is_reserved, is_reconciling, is_settled,
  is_released, reconciliation_required,
}
use ucli_server.Budget.Ledger.Store.{Fingerprint, put_period, put_entry, put_usage, Rules}
use ucli_server.Budget.Ledger.Settle.{
  settle_usage, settle_open, settle, hold_open, hold, release_entry, release, mark_dispatched,
  mark_uncertain,
}
use ucli_server.Budget.Ledger.Balance.{
  Balanced, Balanced-same, put_entry-Balanced, post-Balanced, is_open,
}
use ucli_server.Budget.Ledger.Balance.Helpers.{
  Keeps, shift-sum, alert-Keeps, alert-put_entry, locked-Keeps, create_entry-Balanced, unpaid_at,
  SameLedger, create_usage-same,
}
use ucli_server.Budget.Ledger.Booking.{add_reserved, book, extend, extend_again, extend_new}

-- What `add_reserved` writes.
pub add_reserved-eq-ok :
    (db : Db) (p : Period) (amount : ℕ)
    → Ensures
        (λ d. d ≡ put_period db (record p { reserved_cny = p.reserved_cny + amount }))
        (add_reserved db p amount)
unfolding add_reserved
add_reserved-eq-ok db p amount = Ensures-bind _ _ λ _ _. Ensures-bind _ _ λ total h. Ensures-ok _ (
    let same : total ≡ p.reserved_cny + amount =
      omega (arith, shift-sum p.reserved_cny amount 0 total h) in
    rw same refl)

-- A new open entry on a period that is stored.
pub book-Keeps :
    (db : Db) (p : Period) (e : Entry)
    → Balanced db
    → find? (λ r. r.id == p.id) db.periods ≡ some p
    → is_open e.status ≡ true
    → e.period_id ≡ p.id
    → e.settled_cny ≡ 0
    → Keeps (book db p e.reserved_cny e)
unfolding book
book-Keeps db p e b stored opened on_period unpaid =
    let holds : p.reserved_cny + e.reserved_cny
        ≡ p.reserved_cny + (if is_open e.status then e.reserved_cny else 0) =
      rw opened refl in
    Ensures-then _ _ (add_reserved-eq-ok db p e.reserved_cny) λ d _ added.
      Ensures-bind _ _ λ created h.
        Ensures-then _ _
          (alert-Keeps created p.id (
            create_entry-Balanced db d p _ e created b stored added refl holds refl on_period unpaid
              h))
          λ s _ kept. Ensures-ok _ kept

module _ (rules : Rules) (fingerprint : Fingerprint) where
  extend_new-Keeps :
      (db : Db) (e : Entry) (p : Period) (attempt : Attempt) (amount hash : ℕ)
      → Balanced db
      → find? (λ r. r.id == e.id) db.entries ≡ some e
      → find? (λ r. r.id == p.id) db.periods ≡ some p
      → e.period_id ≡ p.id
      → is_reserved e.status || is_reconciling e.status ≡ true
      → Keeps (extend_new rules fingerprint db e p attempt amount hash)
  unfolding extend_new
  extend_new-Keeps db e p attempt amount hash b found_entry found_period on_period opened =
      Ensures-then _ _ (add_reserved-eq-ok db p amount) λ d _ added. Ensures-bind _ _ λ total h.
        Ensures-then _ _
          (alert-Keeps _ p.id (
            rw added (
              post-Balanced db b found_period found_entry (record {
                same_id = refl;
                same_entry = refl;
                on_period = on_period;
                stays = on_period;
                reserves = ground (arith, shift-sum e.reserved_cny amount 0 total h);
                spends = refl;
                unpaid = unpaid_at db e b found_entry;
              }))))
          λ s _ kept. Ensures-ok _ kept

  -- `extend` keeps the invariant.
  pub extend-Keeps :
      (db : Db) (ref : Reservation) (additional : Amount) (attempt : Attempt)
      → Balanced db
      → Keeps (extend rules fingerprint db ref additional attempt)
  unfolding extend extend_again
  extend-Keeps db ref additional attempt b = Ensures-bind _ _ λ amount _. Ensures-bind _ _ λ _ _.
      locked-Keeps rules db ref _ λ e p found_entry found_period on_period.
        Ensures-require _ _ _ λ opened.
          Ensures-found _ _ _ (λ x _. Ensures-bind _ _ λ _ _. Ensures-ok _ b)
            (λ _.
              extend_new-Keeps db e p attempt amount _ b found_entry found_period on_period opened)

  -- What `settle_usage` writes is no period and no entry.
  settle_usage-same :
      (db : Db) (e : Entry) (usage : Usage) (amount : ℕ) (old : Option Usage)
      → Ensures (SameLedger db) (settle_usage rules fingerprint db e usage amount old)
  unfolding settle_usage put_usage
  settle_usage-same db e usage amount none = create_usage-same db _
  settle_usage-same db e usage amount (some old) =
      Ensures-bind _ _ λ _ _. Ensures-bind _ _ λ _ _. Ensures-ok _ (refl, refl)

  settle_open-Keeps :
      (db : Db) (e : Entry) (p : Period) (usage : Usage) (amount hash : ℕ)
      → Balanced db
      → find? (λ r. r.id == e.id) db.entries ≡ some e
      → find? (λ r. r.id == p.id) db.periods ≡ some p
      → e.period_id ≡ p.id
      → is_reserved e.status || is_reconciling e.status ≡ true
      → Keeps (settle_open rules fingerprint db e p usage amount hash)
  unfolding settle_open
  settle_open-Keeps db e p usage amount hash b found_entry found_period on_period opened =
      Ensures-bind _ _ λ _ _. Ensures-then _ _ (settle_usage-same db e usage amount _) λ d _ same.
        Ensures-bind _ _ λ spent s. Ensures-bind _ _ λ left h.
          Ensures-then _ _
            (alert-put_entry _ p.id _ λ x.
              post-Balanced d (Balanced-same db d b same.0 same.1) {p = p} {e = e}
                (rw same.0 found_period) (rw same.1 found_entry)
                (record {
                  same_id = refl;
                  same_entry = refl;
                  on_period = on_period;
                  stays = on_period;
                  reserves = ground (arith, shift-sum p.reserved_cny 0 e.reserved_cny left h);
                  spends = ground (arith, shift-sum p.spent_cny amount e.settled_cny spent s);
                  unpaid = λ t. absurd (cc);
                }))
            λ r _ kept. Ensures-ok _ kept

  -- `settle` keeps the invariant.
  pub settle-Keeps :
      (db : Db) (ref : Reservation) (actual : Amount) (usage : Usage)
      → Balanced db
      → Keeps (settle rules fingerprint db ref actual usage)
  unfolding settle
  settle-Keeps db ref actual usage b = Ensures-bind _ _ λ amount _.
      locked-Keeps rules db ref _ λ e p found_entry found_period on_period.
        Ensures-require _ _ _ λ _.
          Ensures-if (is_settled e.status) _ _ (λ _. Ensures-require _ _ _ λ _. Ensures-ok _ b)
            (λ _. Ensures-require _ _ _ λ opened.
              settle_open-Keeps db e p usage amount _ b found_entry found_period on_period opened)

  hold_open-Keeps :
      (db : Db) (e : Entry) (p : Period) (usage : Usage) (amount unresolved : ℕ) (reason : String)
      (hash : ℕ)
      → Balanced db
      → find? (λ r. r.id == e.id) db.entries ≡ some e
      → find? (λ r. r.id == p.id) db.periods ≡ some p
      → e.period_id ≡ p.id
      → is_reserved e.status || is_reconciling e.status ≡ true
      → is_none e.snapshot.hold_fingerprint ≡ true
      → Keeps (hold_open rules fingerprint db e p usage amount unresolved reason hash)
  unfolding hold_open
  hold_open-Keeps db e p usage amount unresolved reason hash b found_entry found_period on_period
        opened unheld =
      Ensures-bind _ _ λ _ _. Ensures-then _ _ (create_usage-same db usage) λ d _ same.
        Ensures-bind _ _ λ spent s. Ensures-bind _ _ λ left h.
          Ensures-then _ _
            (alert-Keeps _ p.id (
              post-Balanced d (Balanced-same db d b same.0 same.1) {p = p} {e = e}
                (rw same.0 found_period) (rw same.1 found_entry)
                (record {
                  same_id = refl;
                  same_entry = refl;
                  on_period = on_period;
                  stays = on_period;
                  reserves =
                      ground (arith, shift-sum p.reserved_cny unresolved e.reserved_cny left h);
                  spends =
                      ground (
                        arith,
                        shift-sum p.spent_cny amount 0 spent s,
                        unpaid_at db e b found_entry,
                      );
                  unpaid = λ t. absurd (cc);
                })))
            λ r _ kept. Ensures-ok _ kept

  -- `hold` keeps the invariant.
  pub hold-Keeps :
      (db : Db) (ref : Reservation) (actual unresolved : Amount) (usage : Usage) (reason : String)
      → Balanced db
      → Keeps (hold rules fingerprint db ref actual unresolved usage reason)
  unfolding hold
  hold-Keeps db ref actual unresolved usage reason b = Ensures-bind _ _ λ amount _.
      Ensures-bind _ _ λ rest _.
        locked-Keeps rules db ref _ λ e p found_entry found_period on_period.
          Ensures-if (same_option e.snapshot.hold_fingerprint _) _ _ (λ _. Ensures-ok _ b)
            (λ _. Ensures-require _ _ _ λ _. Ensures-require _ _ _ λ unheld.
              Ensures-require _ _ _ λ opened.
                hold_open-Keeps db e p usage amount rest reason _ b found_entry found_period
                  on_period opened unheld)

-- `releaseEntry` keeps the invariant.
pub release_entry-Keeps :
    (db : Db) (e : Entry) (p : Period) (reason : String)
    → Balanced db
    → find? (λ r. r.id == e.id) db.entries ≡ some e
    → find? (λ r. r.id == p.id) db.periods ≡ some p
    → e.period_id ≡ p.id
    → is_reserved e.status ≡ true
    → Keeps (release_entry db e p reason)
unfolding release_entry
release_entry-Keeps db e p reason b found_entry found_period on_period opened =
    Ensures-bind _ _ λ left h. Ensures-ok _ (
      post-Balanced db b found_period found_entry (record {
        same_id = refl;
        same_entry = refl;
        on_period = on_period;
        stays = on_period;
        reserves = ground (arith, shift-sum p.reserved_cny 0 e.reserved_cny left h);
        spends = refl;
        unpaid = λ t. absurd (cc);
      }))

-- `release` keeps the invariant.
pub release-Keeps :
    (rules : Rules) (db : Db) (ref : Reservation) (reason : String)
    → Balanced db
    → Keeps (release rules db ref reason)
unfolding release
release-Keeps rules db ref reason b =
    locked-Keeps rules db ref _ λ e p found_entry found_period on_period.
      Ensures-if (is_released e.status) _ _ (λ _. Ensures-ok _ b)
        (λ _. Ensures-require (is_reserved e.status && is_none e.dispatched_at) _ _ λ opened.
          release_entry-Keeps db e p reason b found_entry found_period on_period (ground arith))

-- `markDispatched` keeps the invariant.
pub mark_dispatched-Keeps :
    (rules : Rules) (db : Db) (ref : Reservation) (lease_until now : ℕ) (attempt : Option Attempt)
    → Balanced db
    → Keeps (mark_dispatched rules db ref lease_until now attempt)
unfolding mark_dispatched
mark_dispatched-Keeps rules db ref lease_until now attempt b =
    locked-Keeps rules db ref _ λ e p found_entry found_period on_period.
      Ensures-require _ _ _ λ opened. Ensures-ok _ (
        put_entry-Balanced db e _ b found_entry refl (λ k. refl) (λ k. refl)
          (λ t. unpaid_at db e b found_entry (ground arith)))

-- An open entry that becomes uncertain still holds its amount.
pub uncertain-Balanced :
    (db : Db) (e : Entry) (reason : String)
    → Balanced db
    → find? (λ r. r.id == e.id) db.entries ≡ some e
    → is_reserved e.status || is_reconciling e.status ≡ true
    → Balanced (
        put_entry db
          (record e { status = reconciliation_required; reason = some reason; lease_until = none }))
uncertain-Balanced db e reason b found_entry opened =
    put_entry-Balanced db e _ b found_entry refl (λ k. ground arith) (λ k. refl)
      (λ t. unpaid_at db e b found_entry (ground arith))

-- `markUncertain` keeps the invariant.
pub mark_uncertain-Keeps :
    (rules : Rules) (db : Db) (ref : Reservation) (reason : String)
    → Balanced db
    → Keeps (mark_uncertain rules db ref reason)
unfolding mark_uncertain
mark_uncertain-Keeps rules db ref reason b =
    locked-Keeps rules db ref _ λ e p found_entry found_period on_period.
      Ensures-if (is_settled e.status || is_released e.status) _ _ (λ _. Ensures-ok _ b)
        (λ closed. Ensures-ok _ (uncertain-Balanced db e reason b found_entry (ground arith)))
