-- ===== src/Quota/Ledger/Sums.antt =====
-- Sequences of calls on the ledger of packages/quota/src/quota-ledger.ts, and its reserved sums.
use ucli_server.Base.{
  ℕ, suc, ◌+◌, ◌≡◌, refl, inl, inr, true, false, Option, none, some, List, [], ◌∷◌, ◌==◌,
  if◌then◌else◌, arith, Bool-cases, Option-cases, if_both, subst, ap,
}
use ucli_server.Base.Table.{find?, total, total-replace, find?-self}
use ucli_server.Base.Int.{ℤ, pos, ◌+ℤ◌, ◌-ℤ◌, int_laws, ltb_ℤ, ◌≤ℤ◌}
use ucli_server.Quota.Ledger.{
  Amount, Limits, Reservation, QuotaLedger, passes_limits, reserve, is_reached, emit, alert_at,
  update_alerts, close, find_reservation, settle_reservation, settle, release, take_alerts,
}

-- What a reservation still holds.
abbrev pub open_tokens : Reservation → ℕ
open_tokens r = if r.settled then 0 else r.tokens

abbrev pub open_cost : Reservation → ℕ
open_cost r = if r.settled then 0 else r.cost

pub record SumsOpen (l : QuotaLedger) : Type 0 where
  pub tokens : l.reserved_tokens ≡ pos (total open_tokens l.reservations)
  pub cost : l.reserved_cost ≡ pos (total open_cost l.reservations)

pub data Call : Type 0 where
  reserves : Amount → Call
  settles : ℕ → Amount → Call
  releases : ℕ → Call
  takes : Call

-- A call that throws changes nothing.
unfoldable pub step : Limits → QuotaLedger → Call → QuotaLedger
unfolding reserve settle release take_alerts
step c l (reserves amount) = elim (reserve c l amount) [ none ↦ l | some r ↦ r.1 ]
step c l (settles k actual) = elim (settle c l k actual) [ none ↦ l | some m ↦ m ]
step c l (releases k) = release l k
step c l takes = (take_alerts l).1

unfoldable pub run : Limits → QuotaLedger → List Call → QuotaLedger
unfolding step
run c l [] = l
run c l (x ∷ xs) = run c (step c l x) xs

-- Alerts move no sum.
alert_at-SumsOpen : (c : Limits) (l : QuotaLedger) (t : ℕ) → SumsOpen l → SumsOpen (alert_at c l t)
unfolding alert_at emit
alert_at-SumsOpen c l t s =
    if_both SumsOpen (is_reached c l t) {x = emit l t} {y = l}
      (record { tokens = s.tokens; cost = s.cost }) s

sub_lem : (a b d : ℕ) (v : ℤ) → v ≡ pos a → b + d ≡ a → v -ℤ pos d ≡ pos b
sub_lem a b d v h k = rw h (omega int_laws)

add_lem : (a d : ℕ) (v : ℤ) → v ≡ pos a → v +ℤ pos d ≡ pos (d + a)
add_lem a d v h = rw h (omega int_laws)

close-SumsOpen :
    (l : QuotaLedger) (r : Reservation)
    → find? (λ q. q.id == r.id) l.reservations ≡ some r
    → r.settled ≡ false
    → SumsOpen l
    → SumsOpen (close l r)
unfolding close
close-SumsOpen l r found active s =
    let t =
      total-replace open_tokens (λ q. q.id == r.id) (record r { settled = true }) l.reservations r
        found in
    let u =
      total-replace open_cost (λ q. q.id == r.id) (record r { settled = true }) l.reservations r
        found in
    record {
      tokens = sub_lem _ _ r.tokens _ s.tokens (ground (arith, t));
      cost = sub_lem _ _ r.cost _ s.cost (ground (arith, u));
    }

abbrev charged : QuotaLedger → Amount → QuotaLedger
charged l actual = record l {
  used_tokens = l.used_tokens +ℤ pos actual.tokens;
  used_cost = l.used_cost +ℤ pos actual.cost;
}

update_alerts-SumsOpen : (c : Limits) (l : QuotaLedger) → SumsOpen l → SumsOpen (update_alerts c l)
unfolding update_alerts
update_alerts-SumsOpen c l s =
    alert_at-SumsOpen c _ 100 (alert_at-SumsOpen c _ 80 (alert_at-SumsOpen c l 50 s))

-- The reservation that a query finds is the one of its identifier.
find_reservation_self :
    (l : QuotaLedger) (k : ℕ) (r : Reservation)
    → find_reservation l k ≡ some r
    → find? (λ q. q.id == r.id) l.reservations ≡ some r
find_reservation_self l k r h = find?-self (λ q. q.id) k l.reservations r h

step-SumsOpen : (c : Limits) (l : QuotaLedger) (x : Call) → SumsOpen l → SumsOpen (step c l x)
unfolding step reserve settle settle_reservation release take_alerts close
step-SumsOpen c l (reserves amount) s = elim (Bool-cases (passes_limits c l amount)) [
  | inl e ↦ rw (e, step, reserve) s
  | inr e ↦
      rw (e, step, reserve)
        (record {
          tokens = add_lem _ amount.tokens l.reserved_tokens s.tokens;
          cost = add_lem _ amount.cost l.reserved_cost s.cost;
        })
]
step-SumsOpen c l (settles k actual) s = elim (Option-cases (find_reservation l k)) [
  | inl e ↦ rw (e, step, settle) s
  | inr (r, e) ↦ (elim (Bool-cases r.settled) [
    | inl t ↦ rw (e, step, settle, t, settle_reservation) s
    | inr t ↦
        (let closed = close-SumsOpen l r (find_reservation_self l k r e) t s in
          rw (e, step, settle, t, settle_reservation)
            (update_alerts-SumsOpen c (charged (close l r) actual)
              (record { tokens = closed.tokens; cost = closed.cost })))
  ])
]
step-SumsOpen c l (releases k) s = elim (Option-cases (find_reservation l k)) [
  | inl e ↦ rw (e, step, release) s
  | inr (r, e) ↦ (elim (Bool-cases r.settled) [
    | inl t ↦ rw (e, step, release, t) s
    | inr t ↦ rw (e, step, release, t) (close-SumsOpen l r (find_reservation_self l k r e) t s)
  ])
]
step-SumsOpen c l takes s = record { tokens = s.tokens; cost = s.cost }

-- Whatever is called, throwing calls included, what the ledger holds as reserved is what its
-- reservations that are neither settled nor released hold, in tokens and in cost, if it was so before.
pub run-SumsOpen :
    (c : Limits) (l : QuotaLedger) (xs : List Call) → SumsOpen l → SumsOpen (run c l xs)
unfolding run
run-SumsOpen c l [] s = s
run-SumsOpen c l (x ∷ xs) s = run-SumsOpen c (step c l x) xs (step-SumsOpen c l x s)

abbrev granted : QuotaLedger → Amount → Reservation × QuotaLedger
granted l amount =
    let new : Reservation = record {
      id = suc l.sequence;
      tokens = amount.tokens;
      cost = amount.cost;
      settled = false;
    } in
    (
      new,
      record l {
        reserved_tokens = l.reserved_tokens +ℤ pos amount.tokens;
        reserved_cost = l.reserved_cost +ℤ pos amount.cost;
        sequence = suc l.sequence;
        reservations = new ∷ l.reservations;
      },
    )

reserve-refused :
    (c : Limits) (l : QuotaLedger) (amount : Amount)
    → passes_limits c l amount ≡ true
    → reserve c l amount ≡ none
unfolding reserve
reserve-refused c l amount e = rw (e, reserve) refl

reserve-granted :
    (c : Limits) (l : QuotaLedger) (amount : Amount)
    → passes_limits c l amount ≡ false
    → reserve c l amount ≡ some (granted l amount)
unfolding reserve
reserve-granted c l amount e = rw (e, reserve) refl

same_result : {A : Type 0} (o : Option A) (a b : A) → o ≡ some a → o ≡ some b → a ≡ b
same_result o a b h k = cc

no_result : {A : Type 0} (o : Option A) (a : A) → o ≡ none → o ≡ some a → ⊥
no_result o a h k = cc

below :
    (limit n : ℕ) (u v : ℤ)
    → ltb_ℤ (pos limit) (u +ℤ v +ℤ pos n) ≡ false
    → u +ℤ (v +ℤ pos n) ≤ℤ pos limit
below limit n u v h = grind int_laws

granted-within :
    (c : Limits) (l : QuotaLedger) (amount : Amount)
    → passes_limits c l amount ≡ false
    → (l.used_tokens +ℤ (l.reserved_tokens +ℤ pos amount.tokens) ≤ℤ pos c.token_limit)
      × (l.used_cost +ℤ (l.reserved_cost +ℤ pos amount.cost) ≤ℤ pos c.cost_limit)
unfolding passes_limits
granted-within c l amount e = (
  below c.token_limit amount.tokens l.used_tokens l.reserved_tokens (ground arith),
  below c.cost_limit amount.cost l.used_cost l.reserved_cost (ground arith),
)

-- A reservation that the ledger grants leaves what is used and what is reserved together within both
-- limits.
pub reserve-within :
    (c : Limits) (l m : QuotaLedger) (amount : Amount) (r : Reservation)
    → reserve c l amount ≡ some (r, m)
    → (m.used_tokens +ℤ m.reserved_tokens ≤ℤ pos c.token_limit)
      × (m.used_cost +ℤ m.reserved_cost ≤ℤ pos c.cost_limit)
reserve-within c l m amount r h = elim (Bool-cases (passes_limits c l amount)) [
  | inl e ↦ absurd (no_result _ _ (reserve-refused c l amount e) h)
  | inr e ↦
      (let same = same_result _ (granted l amount) (r, m) (reserve-granted c l amount e) h in
        subst
          (λ (n : QuotaLedger).
            (n.used_tokens +ℤ n.reserved_tokens ≤ℤ pos c.token_limit)
            × (n.used_cost +ℤ n.reserved_cost ≤ℤ pos c.cost_limit))
          (ap (λ q. q.1) same) (granted-within c l amount e))
]
