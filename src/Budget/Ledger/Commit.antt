-- ===== src/Budget/Ledger/Commit.antt =====
-- A call on one of the two ledgers of packages/quota/src as a transaction: what it leaves behind.
use ucli_server.Budget.Ledger.Balance.{Balanced}
use ucli_server.Budget.Ledger.{Db}
use ucli_server.Budget.Ledger.Balance.Helpers.{Keeps}
use ucli_server.Budget.Result.{Result, err, ok}
use ucli_server.Base.{refl}

-- A call that throws leaves the database as it was.
unfoldable pub committed {ℓ} : {A : Type ℓ} → Db → Result (A × Db) → Db
committed db (ok (_, d)) = d
committed db (err x) = db

pub committed-Balanced :
    {A : Type 0} (db : Db) (m : Result (A × Db)) → Balanced db → Keeps m → Balanced (committed db m)
unfolding committed
committed-Balanced db (ok (a, d)) b kept = kept.at (a, d) refl
committed-Balanced db (err x) b kept = b
