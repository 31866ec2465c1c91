-- ===== src/Quota/Ledger.antt =====
-- packages/quota/src/quota-ledger.ts: the quota ledger in memory. A cost is a number of units of a
-- decimal. The reservations that `reserve` hands out are objects that the ledger marks as settled, so
-- the state lists them, the newest first, and a call names one by its identifier.
pub mod Sums
mod Examples
use ucli_server.Base.{
  ℕ, suc, ◌*◌, Bool, true, false, ◌&&◌, ◌||◌, not, Option, none, some, List, [], ◌∷◌, ◌++◌, ltb,
  leb, ◌==◌, if◌then◌else◌,
}
use ucli_server.Base.Table.{find?, replace}
use ucli_server.Base.Lists.{includes}
use ucli_server.Base.Int.{ℤ, pos, ◌+ℤ◌, ◌-ℤ◌, ltb_ℤ}

pub record Amount : Type 0 where
  pub tokens : ℕ
  pub cost : ℕ

pub record Limits : Type 0 where
  pub token_limit : ℕ
  pub cost_limit : ℕ

pub record Reservation : Type 0 where
  pub id : ℕ
  pub tokens : ℕ
  pub cost : ℕ
  pub settled : Bool

pub record QuotaLedger : Type 0 where
  pub used_tokens : ℤ
  pub reserved_tokens : ℤ
  pub used_cost : ℤ
  pub reserved_cost : ℤ
  pub sequence : ℕ
  pub pending_alerts : List ℕ
  pub emitted_alerts : List ℕ
  pub reservations : List Reservation

abbrev pub initial : QuotaLedger
initial = record {
  used_tokens = pos 0;
  reserved_tokens = pos 0;
  used_cost = pos 0;
  reserved_cost = pos 0;
  sequence = 0;
  pending_alerts = [];
  emitted_alerts = [];
  reservations = [];
}

unfoldable pub passes_limits : Limits → QuotaLedger → Amount → Bool
passes_limits c l amount =
    ltb_ℤ (pos c.token_limit) (l.used_tokens +ℤ l.reserved_tokens +ℤ pos amount.tokens)
    || ltb_ℤ (pos c.cost_limit) (l.used_cost +ℤ l.reserved_cost +ℤ pos amount.cost)

-- `reserve`; `none` is `QuotaExceededError`.
unfoldable pub reserve : Limits → QuotaLedger → Amount → Option (Reservation × QuotaLedger)
unfolding passes_limits
reserve c l amount =
    let new : Reservation = record {
      id = suc l.sequence;
      tokens = amount.tokens;
      cost = amount.cost;
      settled = false;
    } in
    if passes_limits c l amount
    then none
    else some (
      new,
      record l {
        reserved_tokens = l.reserved_tokens +ℤ pos amount.tokens;
        reserved_cost = l.reserved_cost +ℤ pos amount.cost;
        sequence = suc l.sequence;
        reservations = new ∷ l.reservations;
      },
    )

-- `used / limit * 100 >= threshold`, where there is a limit.
abbrev pub percent_is : ℕ → ℕ → ℤ → Bool
percent_is threshold limit used = ltb 0 limit && not (ltb_ℤ (times used) (pos (threshold * limit)))
  where
    times : ℤ → ℤ
    times (pos n) = pos (n * 100)
    times (ℤ.negsuc n) = ℤ.negsuc n

unfoldable pub is_reached : Limits → QuotaLedger → ℕ → Bool
is_reached c l threshold =
    (percent_is threshold c.token_limit l.used_tokens
      || percent_is threshold c.cost_limit l.used_cost)
    && not (includes l.emitted_alerts threshold)

unfoldable pub emit : QuotaLedger → ℕ → QuotaLedger
emit l threshold = record l {
  emitted_alerts = threshold ∷ l.emitted_alerts;
  pending_alerts = l.pending_alerts ++ threshold ∷ [];
}

unfoldable pub alert_at : Limits → QuotaLedger → ℕ → QuotaLedger
unfolding is_reached emit
alert_at c l threshold = if is_reached c l threshold then emit l threshold else l

-- `updateAlerts`.
unfoldable pub update_alerts : Limits → QuotaLedger → QuotaLedger
unfolding alert_at
update_alerts c l = alert_at c (alert_at c (alert_at c l 50) 80) 100

-- The reservation is marked, and what it held is given back.
unfoldable pub close : QuotaLedger → Reservation → QuotaLedger
close l r = record l {
  reserved_tokens = l.reserved_tokens -ℤ pos r.tokens;
  reserved_cost = l.reserved_cost -ℤ pos r.cost;
  reservations = replace (λ q. q.id == r.id) (record r { settled = true }) l.reservations;
}

abbrev pub find_reservation : QuotaLedger → ℕ → Option Reservation
find_reservation l k = find? (λ q. q.id == k) l.reservations

unfoldable pub settle_reservation : Limits → QuotaLedger → Reservation → Amount → Option QuotaLedger
unfolding close update_alerts
settle_reservation c l r actual =
    if r.settled
    then none
    else some (
        update_alerts c (record (close l r) {
          used_tokens = l.used_tokens +ℤ pos actual.tokens;
          used_cost = l.used_cost +ℤ pos actual.cost;
        }))

-- `settle`; `none` is the exception of a reservation that is settled already.
unfoldable pub settle : Limits → QuotaLedger → ℕ → Amount → Option QuotaLedger
unfolding settle_reservation
settle c l k actual = elim (find_reservation l k) [
  | none ↦ none
  | some r ↦ settle_reservation c l r actual
]

-- `release`.
unfoldable pub release : QuotaLedger → ℕ → QuotaLedger
unfolding close
release l k = elim (find_reservation l k) [ none ↦ l | some r ↦ if r.settled then l else close l r ]

-- `takeAlerts`.
unfoldable pub take_alerts : QuotaLedger → List ℕ × QuotaLedger
take_alerts l = (l.pending_alerts, record l { pending_alerts = [] })
