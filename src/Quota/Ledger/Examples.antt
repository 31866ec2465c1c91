-- ===== src/Quota/Ledger/Examples.antt =====
-- Runs of packages/quota/src/quota-ledger.ts.
use ucli_server.Base.{◌≡◌, refl, false, some, List, [], ◌∷◌}
use ucli_server.Base.Int.{pos, ◌+ℤ◌, ◌-ℤ◌, ◌≤ℤ◌}
use ucli_server.Quota.Ledger.{Amount, Limits, Reservation, QuotaLedger, initial, reserve}
use ucli_server.Quota.Ledger.Sums.{Call, run, SumsOpen, run-SumsOpen, reserve-within}

abbrev limits : Limits
limits = record { token_limit = 100; cost_limit = 1000 }

abbrev charge : Amount
charge = record { tokens = 60; cost = 500 }

-- The second reservation is too much; the first one is settled, then a third is granted.
abbrev calls : List Call
calls =
    Call.reserves charge
    ∷ Call.reserves charge
    ∷ Call.settles 1 (record { tokens = 40; cost = 850 })
    ∷ Call.reserves (record { tokens = 60; cost = 100 })
    ∷ Call.releases 1
    ∷ []

initial-SumsOpen : SumsOpen initial
initial-SumsOpen = record { tokens = refl; cost = refl }

run-SumsOpen_example : SumsOpen (run limits initial calls)
run-SumsOpen_example = run-SumsOpen limits initial calls initial-SumsOpen

alerts_test : (run limits initial calls).pending_alerts ≡ 50 ∷ 80 ∷ []
unfolding run ◌+ℤ◌ ◌-ℤ◌
alerts_test = refl

abbrev first : Reservation
first = record { id = 1; tokens = 60; cost = 500; settled = false }

abbrev held : QuotaLedger
held = record initial {
  reserved_tokens = pos 60;
  reserved_cost = pos 500;
  sequence = 1;
  reservations = first ∷ [];
}

granted : reserve limits initial charge ≡ some (first, held)
unfolding reserve ◌+ℤ◌
granted = refl

reserve-within_example :
    (held.used_tokens +ℤ held.reserved_tokens ≤ℤ pos limits.token_limit)
    × (held.used_cost +ℤ held.reserved_cost ≤ℤ pos limits.cost_limit)
reserve-within_example = reserve-within limits initial held charge first granted
