-- ===== src/Quota/Redis/Life.antt =====
-- packages/quota/src/redis-quota.ts: a request that is reserved, then settled or sent again.
use ucli_server.Base.{
  ℕ, ◌≡◌, refl, sym, ap, subst, ◌∙◌, inl, inr, Bool, true, false, Option, none, some, [], ◌&&◌,
  ==-self, if_both, if◌then◌else◌, Option-cases, Bool-cases, is_some, same_option,
}
use ucli_server.Base.Int.{ℤ, pos, ◌+ℤ◌, ◌-ℤ◌, ◌≤ℤ◌, ltb_ℤ, int_laws}
use ucli_server.Quota.Redis.{
  Windows, Limits, Amount, Code, ok, Marker, Store, Reservation, Counter, settled,
}
use ucli_server.Quota.Redis.Scripts.{
  read, add_to, add_existing, write_reservation, reserve_script, count_reservation, store_marker,
  settle_script, settle_fresh, delta, repeat_reservation, correct_counters, release_slot,
  finish_marker, is_reserved, same_amount, holds_slot,
}
use ucli_server.Quota.Redis.Laws.{fresh-cases, reserve_fresh-of_new, found-repeat}

-- What is counted, moved from the estimate to what was used.
settled_sum : (v : ℤ) (e x : ℕ) → v +ℤ pos e +ℤ delta x e ≡ v +ℤ pos x
settled_sum v e x = omega int_laws

add-then-add :
    (c : Counter) (w e x : ℕ)
    → add_existing (add_to c w (pos e)) w (delta x e) w ≡ some (read (c w) +ℤ pos x)
add-then-add c w e x = rw ==-self (ap some (settled_sum (read (c w)) e x))

-- Giving back a slot moves none of the four counters.
record KeepsUse (s t : Store) : Type 0 where
  daily_tokens : t.daily_tokens ≡ s.daily_tokens
  monthly_tokens : t.monthly_tokens ≡ s.monthly_tokens
  daily_cost : t.daily_cost ≡ s.daily_cost
  monthly_cost : t.monthly_cost ≡ s.monthly_cost

release_slot-KeepsUse : (s : Store) (test : Bool) → KeepsUse s (release_slot s test)
unfolding release_slot
release_slot-KeepsUse s test =
    if_both (KeepsUse s) (ltb_ℤ (pos 0) (read s.concurrency) && test)
      (record {
        daily_tokens = refl;
        monthly_tokens = refl;
        daily_cost = refl;
        monthly_cost = refl;
      })
      (record {
        daily_tokens = refl;
        monthly_tokens = refl;
        daily_cost = refl;
        monthly_cost = refl;
      })

same_option_self : (o : Option ℕ) → same_option o o ≡ true
same_option_self none = refl
same_option_self (some n) = ==-self n

slot-positive : (v : ℤ) → pos 0 ≤ℤ v → ltb_ℤ (pos 0) (v +ℤ pos 1) ≡ true
slot-positive v h = grind int_laws

slot-back : (v : ℤ) → v +ℤ pos 1 -ℤ pos 1 ≡ v
slot-back v = omega int_laws

-- A slot that was taken is given back.
release_slot-back :
    (x : Store) (v : ℤ) (test : Bool)
    → x.concurrency ≡ some (v +ℤ pos 1)
    → pos 0 ≤ℤ v
    → test ≡ true
    → read (release_slot x test).concurrency ≡ v
unfolding release_slot
release_slot-back x v test h idle held = rw (h, slot-positive v idle, held) (slot-back v)

-- The store `s`, with `x` counted as used in the windows `w`: what a request leaves behind in `t`.
pub record Counted (s : Store) (w : Windows) (t : Store) (x : Amount) : Type 0 where
  pub daily_tokens : t.daily_tokens w.day ≡ some (read (s.daily_tokens w.day) +ℤ pos x.tokens)
  pub monthly_tokens :
      t.monthly_tokens w.month ≡ some (read (s.monthly_tokens w.month) +ℤ pos x.tokens)
  pub daily_cost : t.daily_cost w.day ≡ some (read (s.daily_cost w.day) +ℤ pos x.cost)
  pub monthly_cost : t.monthly_cost w.month ≡ some (read (s.monthly_cost w.month) +ℤ pos x.cost)
  pub concurrency : read t.concurrency ≡ read s.concurrency

-- The reservation that a request keeps.
abbrev pub request : Windows → Amount → Limits → ℕ → Reservation
request w a l k = record { windows = w; estimate = a; limits = l; marker_key = some k }

module _ (s : Store) (w : Windows) (a : Amount) (l : Limits) (k : ℕ) (m : Marker)
    (new : s.markers k ≡ none) (active : is_reserved m.state ≡ true) where
  abbrev after : Store
  after = write_reservation s w a (some (k, m))

  abbrev stored : Marker
  stored = record m { generation = if is_some s.concurrency then s.generation else some k }

  after-marker : after.markers k ≡ some stored
  unfolding write_reservation store_marker count_reservation
  after-marker = rw ==-self refl

  after-reserve :
      (reserve_script s w a l (some (k, m))).0 ≡ ok
      → (reserve_script s w a l (some (k, m))).2 ≡ after
  after-reserve h =
      let same = reserve_fresh-of_new s w a l (some (k, m)) new in
      elim (fresh-cases s w a l (some (k, m))) [
        | inl (refused, _) ↦ absurd (refused (sym (ap (λ r. r.0) same) ∙ h))
        | inr (_, admitted) ↦ ap (λ r. r.2) (same ∙ admitted)
      ]

  repeats : repeat_reservation after stored m ≡ (ok, [], after)
  unfolding repeat_reservation
  repeats = rw (==-self, active) refl

  -- A reservation that was admitted under a new marker and is sent again is admitted with no alert, and
  -- writes nothing.
  pub reserve_repeated :
      (reserve_script s w a l (some (k, m))).0 ≡ ok
      → reserve_script (reserve_script s w a l (some (k, m))).2 w a l (some (k, m))
        ≡ (ok, [], (reserve_script s w a l (some (k, m))).2)
  reserve_repeated h =
      subst (λ t. reserve_script t w a l (some (k, m)) ≡ (ok, [], t)) (sym (after-reserve h))
        (found-repeat after w a l k m stored after-marker ∙ repeats)

  settle-open :
      (actual : Amount)
      → settle_script after (request w a l k) actual
        ≡ settle_fresh after (request w a l k) actual (some (k, stored))
  unfolding settle_script
  settle-open actual = rw (after-marker, settle_script, active) refl

  settle_fresh-Counted :
      (actual : Amount)
      → m.concurrency_released ≡ false
      → pos 0 ≤ℤ read s.concurrency
      → Counted s w (settle_fresh after (request w a l k) actual (some (k, stored))).1 actual
  unfolding settle_fresh write_reservation store_marker count_reservation correct_counters
      finish_marker
  settle_fresh-Counted actual held idle =
      let c : Store = correct_counters after (request w a l k) actual in
      let kept = release_slot-KeepsUse c (holds_slot c (some stored)) in
      record {
        daily_tokens =
            rw kept.daily_tokens (add-then-add s.daily_tokens w.day a.tokens actual.tokens);
        monthly_tokens =
            rw kept.monthly_tokens (add-then-add s.monthly_tokens w.month a.tokens actual.tokens);
        daily_cost = rw kept.daily_cost (add-then-add s.daily_cost w.day a.cost actual.cost);
        monthly_cost =
            rw kept.monthly_cost (add-then-add s.monthly_cost w.month a.cost actual.cost);
        concurrency =
            release_slot-back c (read s.concurrency) (holds_slot c (some stored)) refl idle (
              rw (held, same_option_self (if is_some s.concurrency then s.generation else some k))
                refl);
      }

  -- A reservation that was admitted under a new marker, whose slot was not released early, and is then
  -- settled, has counted exactly what was used in the four quota counters of its windows, whatever the
  -- estimate was, and has given back its slot, where the counter of slots was not negative before.
  pub settle-Counted :
      (actual : Amount)
      → m.concurrency_released ≡ false
      → pos 0 ≤ℤ read s.concurrency
      → (reserve_script s w a l (some (k, m))).0 ≡ ok
      → Counted s w
          (settle_script (reserve_script s w a l (some (k, m))).2 (request w a l k) actual).1
          actual
  settle-Counted actual held idle h =
      subst (λ t. Counted s w (settle_script t (request w a l k) actual).1 actual)
        (sym (after-reserve h))
        (subst (λ r. Counted s w r.1 actual) (sym (settle-open actual))
          (settle_fresh-Counted actual held idle))

-- The marker after a settlement.
abbrev settled_marker : Marker → Amount → Code → Marker
settled_marker m x c = record m { state = settled; actual = some x; result = c }

settle_fresh-marker :
    (s : Store) (r : Reservation) (x : Amount) (k : ℕ) (m : Marker)
    → (settle_fresh s r x (some (k, m))).1.markers k
      ≡ some (settled_marker m x (settle_fresh s r x (some (k, m))).0)
unfolding settle_fresh finish_marker
settle_fresh-marker s r x k m = rw ==-self refl

abbrev pub with_marker : Reservation → ℕ → Reservation
with_marker r k = record r { marker_key = some k }

settle-settled :
    (t : Store) (r : Reservation) (x : Amount) (k : ℕ) (m : Marker) (c : Code)
    → t.markers k ≡ some (settled_marker m x c)
    → settle_script t (with_marker r k) x ≡ (c, t)
unfolding settle_script
settle-settled t r x k m c h = rw (h, settle_script, ==-self x.tokens, ==-self x.cost) refl

settle-missing :
    (s : Store) (r : Reservation) (x : Amount) (k : ℕ)
    → s.markers k ≡ none
    → (settle_script s (with_marker r k) x).1 ≡ s
unfolding settle_script
settle-missing s r x k h = rw (h, settle_script) refl

settle-first :
    (s : Store) (r : Reservation) (x : Amount) (k : ℕ) (m : Marker)
    → s.markers k ≡ some m
    → is_reserved m.state ≡ true
    → settle_script s (with_marker r k) x ≡ settle_fresh s (with_marker r k) x (some (k, m))
unfolding settle_script
settle-first s r x k m h active = rw (h, settle_script, active) refl

settle-later :
    (s : Store) (r : Reservation) (x : Amount) (k : ℕ) (m : Marker)
    → s.markers k ≡ some m
    → is_reserved m.state ≡ false
    → (settle_script s (with_marker r k) x).1 ≡ s
unfolding settle_script
settle-later s r x k m h closed =
    rw (h, settle_script, closed)
      (if_both (λ (q : Code × Store). q.1 ≡ s) (same_amount m.actual x) refl refl)

-- A settlement under a marker that is sent again gets the same answer and writes nothing, whether the
-- first was accepted, found no marker, or met another settlement.
pub settle_twice :
    (s : Store) (r : Reservation) (x : Amount) (k : ℕ)
    → settle_script (settle_script s (with_marker r k) x).1 (with_marker r k) x
      ≡ settle_script s (with_marker r k) x
settle_twice s r x k =
    let same_store = λ (h : (settle_script s (with_marker r k) x).1 ≡ s).
      ap (λ t. settle_script t (with_marker r k) x) h in
    elim (Option-cases (s.markers k)) [
      | inl e ↦ same_store (settle-missing s r x k e)
      | inr (m, e) ↦ (elim (Bool-cases (is_reserved m.state)) [
        | inl reserved_now ↦
            (let first = settle-first s r x k m e reserved_now in
              subst (λ q. settle_script q.1 (with_marker r k) x ≡ q) (sym first)
                (settle-settled _ r x k m _ (settle_fresh-marker s (with_marker r k) x k m)))
        | inr closed ↦ same_store (settle-later s r x k m e closed)
      ])
    ]
