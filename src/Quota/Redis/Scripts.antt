-- ===== src/Quota/Redis/Scripts.antt =====
-- packages/quota/src/redis-quota.ts: the Lua scripts, with the calls of Redis that they make.
use ucli_server.Base.{
  ℕ, ◌+◌, ◌*◌, Bool, true, false, ◌&&◌, ◌||◌, not, Option, none, some, List, [], ◌∷◌, ltb, leb,
  ◌==◌, if◌then◌else◌, is_some, or_else, same_option,
}
use ucli_server.Base.Table.{find?}
use ucli_server.Base.Lists.{filter}
use ucli_server.Base.Int.{ℤ, pos, ◌+ℤ◌, ◌-ℤ◌, ltb_ℤ, pos_part, neg_part}
use ucli_server.Quota.Redis.{
  Windows, Limits, Amount, Code, ok, hard_limit_exceeded, reservation_conflict, reservation_missing,
  qps_exceeded, tpm_exceeded, concurrency_exceeded, daily_token_quota, monthly_token_quota,
  daily_cost_quota, monthly_cost_quota, State, reserved, settled, Marker, Counter, Store,
  Reservation,
}

-- `tonumber(redis.call('GET', key) or '0')`.
abbrev pub read : Option ℤ → ℤ
read c = or_else c (pos 0)

-- `INCRBY`.
abbrev pub add_to : Counter → ℕ → ℤ → Counter
add_to c w delta = λ v. if w == v then some (read (c v) +ℤ delta) else c v

-- `INCRBY` where the key exists.
abbrev pub add_existing : Counter → ℕ → ℤ → Counter
add_existing c w delta =
    λ v. if w == v then (elim (c v) [ none ↦ none | some n ↦ some (n +ℤ delta) ]) else c v

abbrev pub set_marker : (ℕ → Option Marker) → ℕ → Marker → ℕ → Option Marker
set_marker ms k m = λ j. if k == j then some m else ms j

abbrev pub is_reserved : State → Bool
is_reserved reserved = true
is_reserved settled = false

-- `limit > 0 and value + amount > limit`.
abbrev pub passes : ℕ → ℤ → ℕ → Bool
passes limit value amount = ltb 0 limit && ltb_ℤ (pos limit) (value +ℤ pos amount)

-- The seven tests of the reservation script, in its order.
unfoldable pub rejection : Store → Windows → Amount → Limits → Option Code
rejection s w a l =
    if passes l.qps (read (s.qps w.second)) 1
    then some qps_exceeded
    else if passes l.tpm (read (s.tpm w.minute)) a.tokens
    then some tpm_exceeded
    else if passes l.concurrency (read s.concurrency) 1
    then some concurrency_exceeded
    else if passes l.daily_tokens (read (s.daily_tokens w.day)) a.tokens
    then some daily_token_quota
    else if passes l.monthly_tokens (read (s.monthly_tokens w.month)) a.tokens
    then some monthly_token_quota
    else if passes l.daily_cost (read (s.daily_cost w.day)) a.cost
    then some daily_cost_quota
    else if passes l.monthly_cost (read (s.monthly_cost w.month)) a.cost
    then some monthly_cost_quota
    else none

-- `used * 100 / limit >= threshold`, where there is a limit.
abbrev pub reaches : ℕ → ℕ → ℤ → Bool
reaches threshold limit used =
    ltb 0 limit && leb (neg_part used * 100 + threshold * limit) (pos_part used * 100)

-- `percent >= threshold` for the greatest of the four percentages, after `a` more is used.
unfoldable pub percent_reaches : ℕ → Store → Windows → Amount → Limits → Bool
percent_reaches threshold s w a l =
    reaches threshold l.daily_tokens (read (s.daily_tokens w.day) +ℤ pos a.tokens)
    || reaches threshold l.monthly_tokens (read (s.monthly_tokens w.month) +ℤ pos a.tokens)
    || reaches threshold l.daily_cost (read (s.daily_cost w.day) +ℤ pos a.cost)
    || reaches threshold l.monthly_cost (read (s.monthly_cost w.month) +ℤ pos a.cost)

abbrev pub nothing : Amount
nothing = record { tokens = 0; cost = 0 }

unfoldable pub alerts : Store → Windows → Amount → Limits → List ℕ
unfolding percent_reaches
alerts s w a l =
    filter (λ t. not (percent_reaches t s w nothing l) && percent_reaches t s w a l)
      (50 ∷ 80 ∷ 100 ∷ [])

-- The six windowed counters, after a reservation.
unfoldable pub count_reservation : Store → Windows → Amount → Store
count_reservation s w a = record s {
  daily_tokens = add_to s.daily_tokens w.day (pos a.tokens);
  monthly_tokens = add_to s.monthly_tokens w.month (pos a.tokens);
  daily_cost = add_to s.daily_cost w.day (pos a.cost);
  monthly_cost = add_to s.monthly_cost w.month (pos a.cost);
  qps = add_to s.qps w.second (pos 1);
  tpm = add_to s.tpm w.minute (pos a.tokens);
}

-- The marker is stored with the generation of the concurrency counter, which begins where the counter
-- does not exist.
unfoldable pub store_marker : Store → Option (ℕ × Marker) → Store
store_marker s none = s
store_marker s (some (k, m)) =
    let generation : Option ℕ = if is_some s.concurrency then s.generation else some k in
    record s {
      generation = generation;
      markers = set_marker s.markers k (record m { generation = generation });
    }

unfoldable pub write_reservation : Store → Windows → Amount → Option (ℕ × Marker) → Store
unfolding count_reservation store_marker
write_reservation s w a marker =
    let t : Store = store_marker (count_reservation s w a) marker in
    record t { concurrency = some (read s.concurrency +ℤ pos 1) }

unfoldable pub reserve_fresh :
    Store → Windows → Amount → Limits → Option (ℕ × Marker) → Code × List ℕ × Store
unfolding rejection write_reservation alerts
reserve_fresh s w a l marker = elim (rejection s w a l) [
  | some code ↦ (code, [], s)
  | none ↦ (ok, alerts s w a l, write_reservation s w a marker)
]

unfoldable pub repeat_reservation : Store → Marker → Marker → Code × List ℕ × Store
repeat_reservation s old m =
    if not (old.fingerprint == m.fingerprint) || not (is_reserved old.state)
    then (reservation_conflict, [], s)
    else (ok, [], s)

-- `reserveQuotaLua`: the code, the alerts and the store.
unfoldable pub reserve_script :
    Store → Windows → Amount → Limits → Option (ℕ × Marker) → Code × List ℕ × Store
unfolding reserve_fresh repeat_reservation
reserve_script s w a l none = reserve_fresh s w a l none
reserve_script s w a l (some (k, m)) = elim (s.markers k) [
  | some old ↦ repeat_reservation s old m
  | none ↦ reserve_fresh s w a l (some (k, m))
]

-- A signed difference of two numbers.
abbrev pub delta : ℕ → ℕ → ℤ
delta actual estimate = pos actual -ℤ pos estimate

abbrev pub above : ℕ → Option ℤ → Bool
above limit value = ltb 0 limit && ltb_ℤ (pos limit) (read value)

unfoldable pub any_above : Store → Windows → Limits → Bool
any_above s w l =
    above l.daily_tokens (s.daily_tokens w.day)
    || above l.monthly_tokens (s.monthly_tokens w.month)
    || above l.daily_cost (s.daily_cost w.day)
    || above l.monthly_cost (s.monthly_cost w.month)

-- The four counters, moved from the estimate to the actual usage: with a marker only where they exist.
unfoldable pub correct_counters : Store → Reservation → Amount → Store
correct_counters s r actual =
    let tokens = delta actual.tokens r.estimate.tokens in
    let cost = delta actual.cost r.estimate.cost in
    elim r.marker_key [
      | none ↦ record s {
        daily_tokens = add_to s.daily_tokens r.windows.day tokens;
        monthly_tokens = add_to s.monthly_tokens r.windows.month tokens;
        daily_cost = add_to s.daily_cost r.windows.day cost;
        monthly_cost = add_to s.monthly_cost r.windows.month cost;
      }
      | some k ↦ record s {
        daily_tokens = add_existing s.daily_tokens r.windows.day tokens;
        monthly_tokens = add_existing s.monthly_tokens r.windows.month tokens;
        daily_cost = add_existing s.daily_cost r.windows.day cost;
        monthly_cost = add_existing s.monthly_cost r.windows.month cost;
      }
    ]

-- Whether the request's slot still counts in the concurrency counter.
abbrev pub holds_slot : Store → Option Marker → Bool
holds_slot s none = true
holds_slot s (some m) = not m.concurrency_released && same_option m.generation s.generation

-- `DECR` where the counter is positive and `test` holds.
unfoldable pub release_slot : Store → Bool → Store
release_slot s test =
    if ltb_ℤ (pos 0) (read s.concurrency) && test
    then record s { concurrency = some (read s.concurrency -ℤ pos 1) }
    else s

unfoldable pub finish_marker : Store → Option (ℕ × Marker) → Amount → Code → Store
finish_marker s none actual code = s
finish_marker s (some (k, m)) actual code = record s {
  markers =
      set_marker s.markers k (record m { state = settled; actual = some actual; result = code });
}

abbrev pub marker_of : Option (ℕ × Marker) → Option Marker
marker_of none = none
marker_of (some (k, m)) = some m

-- The script behind its early returns.
unfoldable pub settle_fresh : Store → Reservation → Amount → Option (ℕ × Marker) → Code × Store
unfolding correct_counters release_slot any_above finish_marker
settle_fresh s r actual marker =
    let t : Store =
      release_slot (correct_counters s r actual)
        (holds_slot (correct_counters s r actual) (marker_of marker)) in
    let code : Code = if any_above t r.windows r.limits then hard_limit_exceeded else ok in
    (code, finish_marker t marker actual code)

abbrev pub same_amount : Option Amount → Amount → Bool
same_amount none b = false
same_amount (some a) b = a.tokens == b.tokens && a.cost == b.cost

-- `settleQuotaLua`.
unfoldable pub settle_script : Store → Reservation → Amount → Code × Store
unfolding settle_fresh
settle_script s r actual = elim r.marker_key [
  | none ↦ settle_fresh s r actual none
  | some k ↦ (elim (s.markers k) [
    | none ↦ (reservation_missing, s)
    | some m ↦
        if is_reserved m.state
        then settle_fresh s r actual (some (k, m))
        else if same_amount m.actual actual
        then (m.result, s)
        else (reservation_conflict, s)
  ])
]

-- The script of `releaseConcurrency`.
unfoldable pub release_concurrency : Store → Reservation → Store
unfolding release_slot
release_concurrency s r = elim r.marker_key [
  | none ↦ s
  | some k ↦ (elim (s.markers k) [
    | none ↦ s
    | some m ↦
        if not (is_reserved m.state) || m.concurrency_released
        then s
        else (let t : Store = release_slot s (same_option m.generation s.generation) in
            record t {
              markers = set_marker t.markers k (record m { concurrency_released = true });
            })
  ])
]

-- The script of `renew`, at a time: whether the reservation was active.
unfoldable pub renew : Store → Reservation → ℕ → Bool × Store
renew s r now = elim r.marker_key [
  | none ↦ (true, s)
  | some k ↦ (elim (s.markers k) [
    | none ↦ (false, s)
    | some m ↦
        if is_reserved m.state
        then (
          true,
          record s { markers = set_marker s.markers k (record m { recover_after = now + 120000 }) },
        )
        else (false, s)
  ])
]

-- What the marker says that the request costs: `correctedCost or actualCost`.
abbrev pub known_cost : Marker → ℕ
known_cost m = or_else m.corrected_cost (elim m.actual [ none ↦ 0 | some a ↦ a.cost ])

unfoldable pub apply_correction : Store → Windows → ℕ → Marker → ℕ → ℕ → ℕ → Store
apply_correction s w k m cost operation_id version = record s {
  daily_cost = add_existing s.daily_cost w.day (delta cost (known_cost m));
  monthly_cost = add_existing s.monthly_cost w.month (delta cost (known_cost m));
  markers = set_marker s.markers k (record m {
    corrected_cost = some cost;
    corrections = (record { operation_id = operation_id; cost = cost }) ∷ m.corrections;
    correction_version = version;
  });
}

-- The script of `correctCost`: whether it was accepted.
unfoldable pub correct_cost : Store → Windows → ℕ → ℕ → ℕ → ℕ → Bool × Store
unfolding apply_correction
correct_cost s w k cost operation_id version = elim (s.markers k) [
  | none ↦ (false, s)
  | some m ↦
      if is_reserved m.state
      then (false, s)
      else if ltb version m.correction_version
      then (true, s)
      else (elim (find? (λ c. c.operation_id == operation_id) m.corrections) [
        | some c ↦ (c.cost == cost, s)
        | none ↦ (true, apply_correction s w k m cost operation_id version)
      ])
]
