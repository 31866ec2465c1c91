-- ===== src/Quota/Redis/Laws.antt =====
-- The reservation script of packages/quota/src/redis-quota.ts and its limits.
use ucli_server.Base.{
  ℕ, ◌≡◌, ◌≢◌, refl, sym, ◌⊎◌, inl, inr, Bool, true, false, Option, none, some, [], arith, ==-self,
  if◌then◌else◌, Option-cases, ap, ◌∙◌,
}
use ucli_server.Base.Int.{ℤ, pos, ◌+ℤ◌, ◌≤ℤ◌}
use ucli_server.Quota.Redis.{
  Windows, Limits, Amount, Code, ok, qps_exceeded, tpm_exceeded, concurrency_exceeded,
  daily_token_quota, monthly_token_quota, daily_cost_quota, monthly_cost_quota, Marker, Store,
  Counter,
}
use ucli_server.Quota.Redis.Scripts.{
  alerts, read, add_to, passes, rejection, write_reservation, reserve_fresh, reserve_script,
  count_reservation, store_marker, repeat_reservation,
}

-- A counter within a limit, where 0 is none.
abbrev pub IsWithin : ℕ → ℤ → Type 0
IsWithin limit value = (limit ≡ 0) ⊎ (value ≤ℤ pos limit)

pub record WithinLimits (s : Store) (w : Windows) (l : Limits) : Type 0 where
  pub qps : IsWithin l.qps (read (s.qps w.second))
  pub tpm : IsWithin l.tpm (read (s.tpm w.minute))
  pub concurrency : IsWithin l.concurrency (read s.concurrency)
  pub daily_tokens : IsWithin l.daily_tokens (read (s.daily_tokens w.day))
  pub monthly_tokens : IsWithin l.monthly_tokens (read (s.monthly_tokens w.month))
  pub daily_cost : IsWithin l.daily_cost (read (s.daily_cost w.day))
  pub monthly_cost : IsWithin l.monthly_cost (read (s.monthly_cost w.month))

IsWithin-of_passes :
    (limit amount : ℕ) (v : ℤ) → passes limit v amount ≡ false → IsWithin limit (v +ℤ pos amount)
IsWithin-of_passes limit amount v h = ground arith

read-add_to : (c : Counter) (w : ℕ) (d : ℤ) → read (add_to c w d w) ≡ read (c w) +ℤ d
read-add_to c w d = rw ==-self refl

record PassesNone (s : Store) (w : Windows) (a : Amount) (l : Limits) : Type 0 where
  qps : passes l.qps (read (s.qps w.second)) 1 ≡ false
  tpm : passes l.tpm (read (s.tpm w.minute)) a.tokens ≡ false
  concurrency : passes l.concurrency (read s.concurrency) 1 ≡ false
  daily_tokens : passes l.daily_tokens (read (s.daily_tokens w.day)) a.tokens ≡ false
  monthly_tokens : passes l.monthly_tokens (read (s.monthly_tokens w.month)) a.tokens ≡ false
  daily_cost : passes l.daily_cost (read (s.daily_cost w.day)) a.cost ≡ false
  monthly_cost : passes l.monthly_cost (read (s.monthly_cost w.month)) a.cost ≡ false

first_none :
    (b : Bool) (x : Code) (r : Option Code)
    → (if b then some x else r) ≡ none
    → (b ≡ false) × (r ≡ none)
first_none true x r h = absurd (cc)
first_none false x r h = (refl, h)

rejection-none :
    (s : Store) (w : Windows) (a : Amount) (l : Limits)
    → rejection s w a l ≡ none
    → PassesNone s w a l
unfolding rejection
rejection-none s w a l h =
    let h₁ = first_none (passes l.qps (read (s.qps w.second)) 1) _ _ h in
    let h₂ = first_none (passes l.tpm (read (s.tpm w.minute)) a.tokens) _ _ h₁.1 in
    let h₃ = first_none (passes l.concurrency (read s.concurrency) 1) _ _ h₂.1 in
    let h₄ = first_none (passes l.daily_tokens (read (s.daily_tokens w.day)) a.tokens) _ _ h₃.1 in
    let h₅ =
      first_none (passes l.monthly_tokens (read (s.monthly_tokens w.month)) a.tokens) _ _ h₄.1 in
    let h₆ = first_none (passes l.daily_cost (read (s.daily_cost w.day)) a.cost) _ _ h₅.1 in
    let h₇ = first_none (passes l.monthly_cost (read (s.monthly_cost w.month)) a.cost) _ _ h₆.1 in
    record {
      qps = h₁.0;
      tpm = h₂.0;
      concurrency = h₃.0;
      daily_tokens = h₄.0;
      monthly_tokens = h₅.0;
      daily_cost = h₆.0;
      monthly_cost = h₇.0;
    }

abbrev marked : Store → Option (ℕ × Marker) → Store
marked s m = store_marker s m

-- Storing the marker touches no windowed counter.
record SameCounters (s t : Store) : Type 0 where
  qps : t.qps ≡ s.qps
  tpm : t.tpm ≡ s.tpm
  daily_tokens : t.daily_tokens ≡ s.daily_tokens
  monthly_tokens : t.monthly_tokens ≡ s.monthly_tokens
  daily_cost : t.daily_cost ≡ s.daily_cost
  monthly_cost : t.monthly_cost ≡ s.monthly_cost

store_marker-SameCounters :
    (s : Store) (m : Option (ℕ × Marker)) → SameCounters s (store_marker s m)
unfolding store_marker
store_marker-SameCounters s none = record {
  qps = refl;
  tpm = refl;
  daily_tokens = refl;
  monthly_tokens = refl;
  daily_cost = refl;
  monthly_cost = refl;
}
store_marker-SameCounters s (some (k, m)) = record {
  qps = refl;
  tpm = refl;
  daily_tokens = refl;
  monthly_tokens = refl;
  daily_cost = refl;
  monthly_cost = refl;
}

write-WithinLimits :
    (s : Store) (w : Windows) (a : Amount) (l : Limits) (m : Option (ℕ × Marker))
    → PassesNone s w a l
    → WithinLimits (write_reservation s w a m) w l
unfolding write_reservation
write-WithinLimits s w a l m p =
    let same = store_marker-SameCounters (count_reservation s w a) m in
    unfold count_reservation in
    record {
      qps = rw (same.qps, read-add_to s.qps w.second (pos 1)) (IsWithin-of_passes _ _ _ p.qps);
      tpm =
          rw (same.tpm, read-add_to s.tpm w.minute (pos a.tokens)) (IsWithin-of_passes _ _ _ p.tpm);
      concurrency = IsWithin-of_passes _ _ _ p.concurrency;
      daily_tokens =
          rw (same.daily_tokens, read-add_to s.daily_tokens w.day (pos a.tokens))
            (IsWithin-of_passes _ _ _ p.daily_tokens);
      monthly_tokens =
          rw (same.monthly_tokens, read-add_to s.monthly_tokens w.month (pos a.tokens))
            (IsWithin-of_passes _ _ _ p.monthly_tokens);
      daily_cost =
          rw (same.daily_cost, read-add_to s.daily_cost w.day (pos a.cost))
            (IsWithin-of_passes _ _ _ p.daily_cost);
      monthly_cost =
          rw (same.monthly_cost, read-add_to s.monthly_cost w.month (pos a.cost))
            (IsWithin-of_passes _ _ _ p.monthly_cost);
    }

-- The keys of a request that has no marker yet.
abbrev pub IsNew : Store → Option (ℕ × Marker) → Type 0
IsNew s none = Unit {0}
IsNew s (some (k, m)) = s.markers k ≡ none

pub reserve_fresh-of_new :
    (s : Store) (w : Windows) (a : Amount) (l : Limits) (m : Option (ℕ × Marker))
    → IsNew s m
    → reserve_script s w a l m ≡ reserve_fresh s w a l m
unfolding reserve_script
reserve_fresh-of_new s w a l none new = refl
reserve_fresh-of_new s w a l (some (k, m)) new = rw (new, reserve_script)

ne_ok_if :
    (b : Bool) (x : Code) (r : Option Code)
    → x ≢ ok
    → r ≢ some ok
    → (if b then some x else r) ≢ some ok
ne_ok_if true x r h k = λ e. h (cc)
ne_ok_if false x r h k = k

none_ne_ok : ◌≢◌ {A = Option Code} none (some ok)
none_ne_ok e = cc

rejection-ne-ok : (s : Store) (w : Windows) (a : Amount) (l : Limits) → rejection s w a l ≢ some ok
unfolding rejection
rejection-ne-ok s w a l =
    ne_ok_if _ qps_exceeded _ (λ e. cc)
      (ne_ok_if _ tpm_exceeded _ (λ e. cc)
        (ne_ok_if _ concurrency_exceeded _ (λ e. cc)
          (ne_ok_if _ daily_token_quota _ (λ e. cc)
            (ne_ok_if _ monthly_token_quota _ (λ e. cc)
              (ne_ok_if _ daily_cost_quota _ (λ e. cc)
                (ne_ok_if _ monthly_cost_quota _ (λ e. cc) none_ne_ok))))))

reserve_admitted :
    (s : Store) (w : Windows) (a : Amount) (l : Limits) (m : Option (ℕ × Marker))
    → rejection s w a l ≡ none
    → reserve_fresh s w a l m ≡ (ok, alerts s w a l, write_reservation s w a m)
unfolding reserve_fresh
reserve_admitted s w a l m h = rw (h, reserve_fresh)

reserve_refused :
    (s : Store) (w : Windows) (a : Amount) (l : Limits) (m : Option (ℕ × Marker)) (c : Code)
    → rejection s w a l ≡ some c
    → reserve_fresh s w a l m ≡ (c, [], s)
unfolding reserve_fresh
reserve_refused s w a l m c h = rw (h, reserve_fresh)

-- What the script did: it refused and wrote nothing, or it admitted the request.
pub fresh-cases :
    (s : Store) (w : Windows) (a : Amount) (l : Limits) (m : Option (ℕ × Marker))
    → (((reserve_fresh s w a l m).0 ≢ ok) × ((reserve_fresh s w a l m).2 ≡ s))
      ⊎ ((rejection s w a l ≡ none)
          × (reserve_fresh s w a l m ≡ (ok, alerts s w a l, write_reservation s w a m)))
fresh-cases s w a l m = elim (Option-cases (rejection s w a l)) [
  | inl e ↦ inr (e, reserve_admitted s w a l m e)
  | inr (c, e) ↦
      let same = reserve_refused s w a l m c e in
      inl (
        (λ h. rejection-ne-ok s w a l (e ∙ ap some (sym (ap (λ r. r.0) same) ∙ h))),
        ap (λ r. r.2) same,
      )
]

-- A new reservation that the script admits leaves each limited counter within its limit.
pub reserve-WithinLimits :
    (s : Store) (w : Windows) (a : Amount) (l : Limits) (m : Option (ℕ × Marker))
    → IsNew s m
    → (reserve_script s w a l m).0 ≡ ok
    → WithinLimits (reserve_script s w a l m).2 w l
reserve-WithinLimits s w a l m new h =
    let same = reserve_fresh-of_new s w a l m new in
    elim (fresh-cases s w a l m) [
      | inl (refused, _) ↦ absurd (refused (sym (ap (λ r. r.0) same) ∙ h))
      | inr (e, admitted) ↦
          rw (same, admitted) (write-WithinLimits s w a l m (rejection-none s w a l e))
    ]

repeat_unchanged : (s : Store) (old m : Marker) → (repeat_reservation s old m).2 ≡ s
unfolding repeat_reservation
repeat_unchanged s old m = ground arith

pub found-repeat :
    (s : Store) (w : Windows) (a : Amount) (l : Limits) (k : ℕ) (m old : Marker)
    → s.markers k ≡ some old
    → reserve_script s w a l (some (k, m)) ≡ repeat_reservation s old m
unfolding reserve_script
found-repeat s w a l k m old h = rw (h, reserve_script)

fresh_refused :
    (s : Store) (w : Windows) (a : Amount) (l : Limits) (m : Option (ℕ × Marker))
    → (reserve_fresh s w a l m).0 ≢ ok
    → (reserve_fresh s w a l m).2 ≡ s
fresh_refused s w a l m h = elim (fresh-cases s w a l m) [
  | inl (_, same) ↦ same
  | inr (_, admitted) ↦ absurd (h (ap (λ r. r.0) admitted))
]

-- A reservation that the script does not admit, for a limit or for a conflict, writes nothing.
pub refused_unchanged :
    (s : Store) (w : Windows) (a : Amount) (l : Limits) (m : Option (ℕ × Marker))
    → (reserve_script s w a l m).0 ≢ ok
    → (reserve_script s w a l m).2 ≡ s
refused_unchanged s w a l none h =
    let same = reserve_fresh-of_new s w a l none tt in
    ap (λ r. r.2) same ∙ fresh_refused s w a l none (λ e. h (ap (λ r. r.0) same ∙ e))
refused_unchanged s w a l (some (k, m)) h = elim (Option-cases (s.markers k)) [
  | inl e ↦
      let same = reserve_fresh-of_new s w a l (some (k, m)) e in
      ap (λ r. r.2) same ∙ fresh_refused s w a l (some (k, m)) (λ e. h (ap (λ r. r.0) same ∙ e))
  | inr (old, e) ↦ ap (λ r. r.2) (found-repeat s w a l k m old e) ∙ repeat_unchanged s old m
]
