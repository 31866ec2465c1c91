-- ===== src/Budget/Ledger/Settle.antt =====
-- packages/quota/src/group-budget.service.ts and project-budget.service.ts: how a budget reservation ends, `settle`, `hold`,
-- `release`, `markDispatched` and `markUncertain`. A call is one transaction: it returns the new
-- database, or throws and changes nothing.
use ucli_server.Base.{
  ℕ, Bool, false, ◌&&◌, ◌||◌, not, Option, none, some, [], ◌∷◌, ◌++◌, String, if◌then◌else◌,
  is_some, is_none, or_else, same_option,
}
use ucli_server.Base.Lists.{filter}
use ucli_server.Budget.Result.{Result, ok, ◌>>=◌, ◌>>◌, require, conflict}
use ucli_server.Budget.Money.{Amount, cny}
use ucli_server.Budget.Ledger.{
  Period, Usage, Attempt, Entry, Db, Reservation, settled, released, reconciliation_required,
  is_reserved, is_settled, is_released, is_reconciling,
}
use ucli_server.Budget.Ledger.Store.{
  Rules, Fingerprint, settlement, holding, same_text, find_usage, put_period, put_entry, put_usage,
  create_usage, shift, alert, locked, assert_usage, redis_actual_of,
}

module _ (rules : Rules) (fingerprint : Fingerprint) where
  -- The usage row of a settlement: the held one is overwritten, or a new one is written.
  unfoldable pub settle_usage : Db → Entry → Usage → ℕ → Option Usage → Result Db
  unfolding assert_usage put_usage create_usage
  settle_usage db e usage amount none = create_usage db (record usage { cost_cny = some amount })
  settle_usage db e usage amount (some old) = do
    assert_usage rules e old e.settled_cny
    require (is_some e.snapshot.hold_fingerprint) conflict
    ok (
        put_usage db (record usage {
          cost_cny = some amount;
          routes = (elim usage.routes [ none ↦ old.routes | some r ↦ some r ]);
        }))

  unfoldable pub settle_open : Db → Entry → Period → Usage → ℕ → ℕ → Result (Bool × Db)
  unfolding assert_usage settle_usage find_usage shift put_period alert put_entry redis_actual_of
  settle_open db e p usage amount hash = do
    assert_usage rules e usage amount
    db₁ ← settle_usage db e usage amount (find_usage db e.request_id)
    spent ← shift p.spent_cny amount e.settled_cny
    held ← shift p.reserved_cny 0 e.reserved_cny
    (exceeded, db₂) ←
        alert (put_period db₁ (record p { spent_cny = spent; reserved_cny = held })) p.id
    ok (
      exceeded,
      put_entry db₂ (record e {
        status = settled;
        settled_cny = amount;
        lease_until = none;
        snapshot = record e.snapshot {
          settlement_fingerprint = some hash;
          exceeded = exceeded;
          redis_actual = some (redis_actual_of usage amount);
          redis_synced = some false;
        };
      }),
    )

  -- `settle`; the result is `exceeded`.
  unfoldable pub settle : Db → Reservation → Amount → Usage → Result (Bool × Db)
  unfolding locked settle_open
  settle db ref actual usage = do
    amount ← cny actual
    let hash = fingerprint (settlement usage amount)
    locked rules db ref λ e p. do
      require (not e.snapshot.manual_final) conflict
      if is_settled e.status
          then (do
            require (same_option e.snapshot.settlement_fingerprint (some hash)) conflict
            ok (e.snapshot.exceeded, db))
          else (do
            require (is_reserved e.status || is_reconciling e.status) conflict
            settle_open db e p usage amount hash)

  unfoldable pub hold_open :
      Db → Entry → Period → Usage → ℕ → ℕ → String → ℕ → Result (Unit {0} × Db)
  unfolding assert_usage create_usage shift put_period put_entry alert
  hold_open db e p usage amount unresolved reason hash = do
    assert_usage rules e usage amount
    db₁ ← create_usage db usage
    spent ← shift p.spent_cny amount 0
    held ← shift p.reserved_cny unresolved e.reserved_cny
    let db₂ = put_period db₁ (record p { spent_cny = spent; reserved_cny = held })
    let db₃ = put_entry db₂ (record e {
      status = reconciliation_required;
      settled_cny = amount;
      reserved_cny = unresolved;
      reason = some reason;
      lease_until = none;
      snapshot = record e.snapshot { hold_fingerprint = some hash };
    })
    (_, db₄) ← alert db₃ p.id
    ok (tt, db₄)

  -- `hold`.
  unfoldable pub hold : Db → Reservation → Amount → Amount → Usage → String → Result (Unit {0} × Db)
  unfolding locked hold_open
  hold db ref actual unresolved_cny usage reason = do
    amount ← cny actual
    unresolved ← cny unresolved_cny
    let hash = fingerprint (holding actual unresolved_cny usage reason)
    locked rules db ref λ e p.
        if same_option e.snapshot.hold_fingerprint (some hash) then ok (tt, db) else (do
          require (not e.snapshot.manual_final) conflict
          require (is_none e.snapshot.hold_fingerprint) conflict
          require (is_reserved e.status || is_reconciling e.status) conflict
          hold_open db e p usage amount unresolved reason hash)

-- `releaseEntry`.
unfoldable pub release_entry : Db → Entry → Period → String → Result (Unit {0} × Db)
unfolding shift put_period put_entry
release_entry db e p reason = do
  held ← shift p.reserved_cny 0 e.reserved_cny
  ok (
    tt,
    put_entry (put_period db (record p { reserved_cny = held })) (record e {
      status = released;
      reason = some reason;
      lease_until = none;
      snapshot = record e.snapshot { redis_synced = some false };
    }),
  )

-- `release`.
unfoldable pub release : Rules → Db → Reservation → String → Result (Unit {0} × Db)
unfolding locked release_entry
release rules db ref reason = locked rules db ref λ e p.
    if is_released e.status then ok (tt, db) else (do
      require (is_reserved e.status && is_none e.dispatched_at) conflict
      release_entry db e p reason)

-- `markDispatched`.
unfoldable pub mark_dispatched :
    Rules → Db → Reservation → ℕ → ℕ → Option Attempt → Result (Unit {0} × Db)
unfolding locked put_entry
mark_dispatched rules db ref lease_until now attempt = locked rules db ref λ e p. do
  require (is_reserved e.status) conflict
  ok (
    tt,
    put_entry db (record e {
      dispatched_at = some (or_else e.dispatched_at now);
      lease_until = some lease_until;
      snapshot = (elim attempt [
        | none ↦ e.snapshot
        | some a ↦ record e.snapshot {
          dispatch_intents =
              filter (λ i. not (same_text i.attempt_id a.attempt_id)) e.snapshot.dispatch_intents
              ++ a ∷ [];
        }
      ]);
    }),
  )

-- `markUncertain`.
unfoldable pub mark_uncertain : Rules → Db → Reservation → String → Result (Unit {0} × Db)
unfolding locked put_entry
mark_uncertain rules db ref reason = locked rules db ref λ e p.
    if is_settled e.status || is_released e.status
    then ok (tt, db)
    else ok (
      tt,
      put_entry db
          (record e { status = reconciliation_required; reason = some reason; lease_until = none }),
    )
