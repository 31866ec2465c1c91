-- ===== src/Budget/Ledger/Booking.antt =====
-- packages/quota/src/group-budget.service.ts and project-budget.service.ts: how an amount is reserved,
-- in the parts of `reserve` that the two services share and in `extend`. A call is one transaction: it
-- returns the new database, or throws and changes nothing.
use Prim.Native.String.{◌++◌ as str_append}
use text.Mathlib.Text.{◌==◌ as str_eq}
use ucli_server.Base.{
  ℕ, false, ◌&&◌, ◌||◌, not, none, some, [], ◌∷◌, ◌++◌, String, same_option, ◌==◌,
}
use ucli_server.Base.Table.{find?}
use ucli_server.Budget.Result.{Result, ok, ◌>>=◌, ◌>>◌, require, if_found, conflict}
use ucli_server.Budget.Money.{Amount, cny}
use ucli_server.Budget.Ledger.{
  Period, Attempt, Extension, Entry, Db, Reservation, is_reserved, is_reconciling,
}
use ucli_server.Budget.Ledger.Store.{
  Rules, Fingerprint, extension, same_text, put_period, put_entry, create_entry, shift, reference,
  check_funds, alert, locked,
}

abbrev pub request_operation : String → String
request_operation request_id = str_append "request:" request_id

-- An amount is reserved on a period: the funds are checked, the column grows.
unfoldable pub add_reserved : Db → Period → ℕ → Result Db
unfolding check_funds shift put_period
add_reserved db p amount = do
  check_funds p amount
  total ← shift p.reserved_cny amount 0
  ok (put_period db (record p { reserved_cny = total }))

-- A new entry on a period: the end of `reserve`.
unfoldable pub book : Db → Period → ℕ → Entry → Result (Reservation × Db)
unfolding add_reserved create_entry alert reference
book db p amount entry = do
  db₁ ← add_reserved db p amount
  db₂ ← create_entry db₁ entry
  (_, db₃) ← alert db₂ p.id
  ok (reference entry, db₃)

-- The part of `reserve` behind `if (existing)`.
unfoldable pub reserve_again : Db → Entry → ℕ → Result (Reservation × Db)
unfolding reference
reserve_again db e hash = do
  require (same_option e.snapshot.reservation_fingerprint (some hash) && is_reserved e.status)
      conflict
  ok (reference e, db)

module _ (rules : Rules) (fingerprint : Fingerprint) where
  unfoldable pub extend_again : Db → Entry → Extension → ℕ → Result (Reservation × Db)
  unfolding reference
  extend_again db e x hash = do require (x.hash == hash) conflict; ok (reference e, db)

  unfoldable pub extend_new : Db → Entry → Period → Attempt → ℕ → ℕ → Result (Reservation × Db)
  unfolding add_reserved put_entry alert reference shift
  extend_new db e p attempt amount hash = do
    db₁ ← add_reserved db p amount
    total ← shift e.reserved_cny amount 0
    let added : Extension = record { attempt = attempt; amount = amount; hash = hash }
    let updated : Entry = record e {
      reserved_cny = total;
      snapshot = record e.snapshot { extensions = e.snapshot.extensions ++ added ∷ [] };
    }
    (_, db₂) ← alert (put_entry db₁ updated) p.id
    ok (reference updated, db₂)

  -- `extend`.
  unfoldable pub extend : Db → Reservation → Amount → Attempt → Result (Reservation × Db)
  unfolding locked extend_again extend_new
  extend db ref additional attempt = do
    amount ← cny additional
    require (elim attempt.attempt_id [ none ↦ false | some a ↦ not (str_eq a "") ]) conflict
    let hash = fingerprint (extension amount attempt)
    locked rules db ref λ e p. do
      require (is_reserved e.status || is_reconciling e.status) conflict
      if_found
          (find? (λ x. same_text x.attempt.attempt_id attempt.attempt_id) e.snapshot.extensions)
          (λ x. extend_again db e x hash) (extend_new db e p attempt amount hash)
