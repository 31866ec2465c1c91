-- ===== src/Budget/Ledger/Recovery.antt =====
-- packages/quota/src/group-budget.service.ts and project-budget.service.ts: `recoverExpired`, the worker's pass over reservations
-- whose lease has run out. Each row is a transaction of its own; a throw ends the pass and keeps what
-- the earlier rows wrote.
use ucli_server.Base.{
  ℕ, zero, suc, ◌+◌, Bool, false, ◌&&◌, ◌||◌, not, none, some, List, [], ◌∷◌, leb, ltb,
  if◌then◌else◌, is_some,
}
use ucli_server.Base.Lists.{filter}
use ucli_server.Budget.Result.{Result, ok, err, ◌>>=◌}
use ucli_server.Budget.Ledger.{Entry, Period, Db, reconciliation_required, is_reserved, is_request}
use ucli_server.Budget.Ledger.Store.{Rules, put_entry, reference, locked}
use ucli_server.Budget.Ledger.Settle.{release_entry}

abbrev pub lease_of : Entry → ℕ
lease_of e = elim e.lease_until [ none ↦ 0 | some t ↦ t ]

abbrev pub is_expired : ℕ → Entry → Bool
is_expired now e = elim e.lease_until [ none ↦ false | some t ↦ leb t now ]

-- `orderBy: { leaseUntil: 'asc' }`.
unfoldable pub insert_by_lease : Entry → List Entry → List Entry
insert_by_lease e [] = e ∷ []
insert_by_lease e (x ∷ xs) =
    let rest = insert_by_lease e xs in
    if ltb (lease_of x) (lease_of e) then x ∷ rest else e ∷ x ∷ xs

unfoldable pub sort_by_lease : List Entry → List Entry
unfolding insert_by_lease
sort_by_lease [] = []
sort_by_lease (e ∷ es) = insert_by_lease e (sort_by_lease es)

abbrev pub take : ℕ → List Entry → List Entry
take zero es = []
take (suc n) [] = []
take (suc n) (e ∷ es) = e ∷ take n es

-- The query of `recoverExpired`.
unfoldable pub expired_entries : Db → ℕ → List Entry
unfolding sort_by_lease
expired_entries db now = take 100 (
    sort_by_lease
      (filter (λ e. is_request e.kind && is_reserved e.status && is_expired now e) db.entries))

pub data Recovered : Type 0 where
  skipped was_released was_uncertain : Recovered

-- The body of the loop, under the locks.
unfoldable pub recover_locked : Db → ℕ → Entry → Period → Result (Recovered × Db)
unfolding release_entry put_entry
recover_locked db now e p =
    if not (is_reserved e.status) || not (is_expired now e)
    then ok (skipped, db)
    else if is_some e.dispatched_at
    then ok (
      was_uncertain,
      put_entry db (record e {
        status = reconciliation_required;
        reason = some "Expired dispatched request";
        lease_until = none;
      }),
    )
    else do (_, d) ← release_entry db e p "Expired before dispatch"; ok (was_released, d)

unfoldable pub recover_entry : Rules → Db → ℕ → Entry → Result (Recovered × Db)
unfolding locked reference recover_locked
recover_entry rules db now original = locked rules db (reference original) (recover_locked db now)

pub record Counts : Type 0 where
  pub released : ℕ
  pub uncertain : ℕ

unfoldable pub count_recovered : Recovered → Counts → Counts
count_recovered skipped c = c
count_recovered was_released c = record c { released = c.released + 1 }
count_recovered was_uncertain c = record c { uncertain = c.uncertain + 1 }

-- One turn of the loop: a throw ends the pass.
unfoldable pub after_entry :
    Result (Recovered × Db) → Db → Counts → (Db → Counts → Result Counts × Db) → Result Counts × Db
unfolding count_recovered
after_entry (ok (r, d)) db counts rest = rest d (count_recovered r counts)
after_entry (err x) db counts rest = (err x, db)

unfoldable pub recover_loop : Rules → Db → ℕ → List Entry → Counts → Result Counts × Db
unfolding recover_entry after_entry
recover_loop rules db now [] counts = (ok counts, db)
recover_loop rules db now (e ∷ es) counts =
    after_entry (recover_entry rules db now e) db counts (λ d c. recover_loop rules d now es c)

-- `recoverExpired`.
unfoldable pub recover_expired : Rules → Db → ℕ → Result Counts × Db
unfolding recover_loop expired_entries
recover_expired rules db now =
    recover_loop rules db now (expired_entries db now) (record { released = 0; uncertain = 0 })
