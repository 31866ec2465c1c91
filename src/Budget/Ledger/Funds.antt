-- ===== src/Budget/Ledger/Funds.antt =====
-- `checkFunds` of the two budget services in packages/quota/src, and what a period has and owes.
use ucli_server.Base.{
  ==-self, ==_iff, Bool-cases, arith, if_both, inl, inr, ltb, not, some, true, ℕ, ◌+◌, ◌==◌, ◌∷◌,
  ◌≡◌, ◌≤◌, ◌⊎◌,
}
use ucli_server.Budget.Ledger.{Db, Entry, Period, threshold_reached}
use ucli_server.Budget.Ensures.{Ensures, Ensures-bind, Ensures-ok, Ensures-then}
use ucli_server.Budget.Ledger.Booking.{add_reserved, book}
use ucli_server.Budget.Ledger.Store.{
  alert, check_funds, create_entry, find_period, lacks_funds, put_period, reference, threshold,
}
use ucli_server.Budget.Ledger.Balance.Helpers.{create_entry-eq-ok, shift-sum}
use ucli_server.Base.Table.{find?, find?-replace, find?-replace_self, find?-self}
use ucli_server.Budget.Result.{ok, or_throw-eq-ok, require-eq-ok}

-- The period has the funds for what it has spent and what it holds.
abbrev pub IsCovered : Period → Type 0
IsCovered p = (p.unlimited ≡ true) ⊎ (p.spent_cny + p.reserved_cny ≤ p.limit_cny)

abbrev pub CoveredAt : ℕ → Db → Type 0
CoveredAt k db = (p : Period) → find_period db k ≡ some p → IsCovered p

covers :
    (p : Period) (amount total : ℕ)
    → not (lacks_funds p amount) ≡ true
    → total ≡ p.reserved_cny + amount
    → IsCovered (record p { reserved_cny = total })
unfolding lacks_funds
covers p amount total h e = ground arith

covered-put :
    (db : Db) (p q : Period)
    → find? (λ r. r.id == q.id) db.periods ≡ some p
    → IsCovered q
    → CoveredAt q.id (put_period db q)
unfolding put_period find_period
covered-put db p q stored c r found =
    let there : find? (λ x. x.id == q.id) (put_period db q).periods ≡ some q =
      find?-replace_self (λ x. x.id == q.id) q db.periods p stored (==-self q.id) in
    let same : q ≡ r = cc in rw (← same) c

covered-add :
    (db : Db) (p : Period) (amount : ℕ)
    → find? (λ q. q.id == p.id) db.periods ≡ some p
    → Ensures (CoveredAt p.id) (add_reserved db p amount)
unfolding add_reserved check_funds
covered-add db p amount stored = Ensures-bind _ _ λ _ funds. Ensures-bind _ _ λ total h.
    Ensures-ok _ (
      covered-put db p (record p { reserved_cny = total }) stored
        (covers p amount total (require-eq-ok _ _ funds)
          (omega (arith, shift-sum p.reserved_cny amount 0 total h))))

-- The alerted threshold is no amount.
covered-threshold :
    (db : Db) (k : ℕ) (p : Period) (n : ℕ)
    → find? (λ q. q.id == p.id) db.periods ≡ some p
    → CoveredAt k db
    → CoveredAt k (put_period db (record p { alerted_threshold = n }))
unfolding find_period put_period
covered-threshold db k p n stored c q there =
    let p' : Period = record p { alerted_threshold = n } in
    let seen = find?-replace (λ (r : Period). r.id) k p' db.periods p stored in
    elim (Bool-cases (p.id == k)) [
      | inl same ↦
          let at : p.id ≡ k = (==_iff p.id k).0 same in
          let old : IsCovered p = c p (rw (← at) stored) in
          let now : p' ≡ q = ground (arith, seen) in rw (← now) old
      | inr other ↦ c q (ground (arith, seen))
    ]

-- An alert leaves the amounts alone.
covered-alert : (db : Db) (k j : ℕ) → CoveredAt k db → Ensures (λ r. CoveredAt k r.1) (alert db j)
unfolding alert find_period
covered-alert db k j c = Ensures-bind _ _ λ p found. Ensures-ok _ (
    if_both (CoveredAt k) (ltb p.alerted_threshold (threshold p))
      (covered-threshold
        (record db { audits = threshold_reached p.organization_id p.id (threshold p) ∷ db.audits })
        k p (threshold p) (find?-self (λ r. r.id) j db.periods p (or_throw-eq-ok _ _ p found)) c)
      c)

-- A new entry is no period.
covered-create :
    (db d : Db) (k : ℕ) (e : Entry) → CoveredAt k db → create_entry db e ≡ ok d → CoveredAt k d
unfolding find_period
covered-create db d k e c h = rw (create_entry-eq-ok db d e h) c

-- A new entry that gets its amount leaves its period covered.
pub book-Covered :
    (db : Db) (p : Period) (amount : ℕ) (e : Entry)
    → find? (λ q. q.id == p.id) db.periods ≡ some p
    → e.period_id ≡ p.id
    → Ensures (λ r. CoveredAt r.0.period_id r.1) (book db p amount e)
unfolding book reference
book-Covered db p amount e stored on_period =
    Ensures-then _ _ (covered-add db p amount stored) λ d _ added. Ensures-bind _ _ λ created h.
      Ensures-then _ _ (covered-alert created p.id p.id (covered-create d created p.id e added h))
        λ s _ kept. Ensures-ok _ (rw on_period kept)
