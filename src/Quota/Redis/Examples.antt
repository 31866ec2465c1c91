-- ===== src/Quota/Redis/Examples.antt =====
-- Runs of the scripts of packages/quota/src/redis-quota.ts on a small store.
use ucli_server.Base.{ℕ, ◌≤◌, ◌≡◌, ◌≢◌, arith, refl, false, none, some, List, []}
use ucli_server.Base.Int.{pos, ◌+ℤ◌, ◌-ℤ◌}
use ucli_server.Quota.Redis.{
  Windows, Limits, Amount, Code, ok, hard_limit_exceeded, qps_exceeded, reserved, Marker, Store,
  Reservation,
}
use ucli_server.Quota.Redis.Scripts.{reserve_script, settle_script}
use ucli_server.Quota.Redis.Laws.{reserve-WithinLimits, refused_unchanged, WithinLimits}
use ucli_server.Quota.Redis.Life.{
  reserve_repeated, settle-Counted, settle_twice, Counted, request, with_marker,
}

abbrev store : Store
store = record {
  daily_tokens = λ w. some (pos 100);
  monthly_tokens = λ w. some (pos 900);
  daily_cost = λ w. none;
  monthly_cost = λ w. none;
  qps = λ w. some (pos 1);
  tpm = λ w. some (pos 40);
  concurrency = some (pos 1);
  generation = some 4;
  markers = λ k. none;
}

abbrev windows : Windows
windows = record { day = 10; month = 1; second = 70; minute = 7 }

abbrev amount : Amount
amount = record { tokens = 50; cost = 300 }

abbrev actual : Amount
actual = record { tokens = 20; cost = 700 }

abbrev limits : Limits
limits = record {
  daily_tokens = 150;
  monthly_tokens = 1000;
  daily_cost = 500;
  monthly_cost = 0;
  qps = 2;
  tpm = 100;
  concurrency = 2;
}

abbrev marker : Marker
marker = record {
  state = reserved;
  fingerprint = 77;
  recover_after = 120000;
  generation = none;
  concurrency_released = false;
  actual = none;
  result = ok;
  corrected_cost = none;
  corrections = [];
  correction_version = 0;
}

abbrev reserve_here : Code × List ℕ × Store
reserve_here = reserve_script store windows amount limits (some (8, marker))

admitted : reserve_here.0 ≡ ok
unfolding reserve_script ◌+ℤ◌
admitted = refl

reserve-WithinLimits_example : WithinLimits reserve_here.2 windows limits
reserve-WithinLimits_example =
    reserve-WithinLimits store windows amount limits (some (8, marker)) refl admitted

-- One request a second is too few.
abbrev tight : Limits
tight = record limits { qps = 1 }

refused : (reserve_script store windows amount tight (some (8, marker))).0 ≡ qps_exceeded
unfolding reserve_script ◌+ℤ◌
refused = refl

qps_ne_ok : ◌≢◌ {A = Code} qps_exceeded ok
qps_ne_ok e = cc

not_admitted : (reserve_script store windows amount tight (some (8, marker))).0 ≢ ok
not_admitted = rw refused qps_ne_ok

refused_unchanged_example : (reserve_script store windows amount tight (some (8, marker))).2 ≡ store
refused_unchanged_example =
    refused_unchanged store windows amount tight (some (8, marker)) not_admitted

reserve_repeated_example :
    reserve_script reserve_here.2 windows amount limits (some (8, marker))
    ≡ (ok, [], reserve_here.2)
reserve_repeated_example = reserve_repeated store windows amount limits 8 marker refl refl admitted

idle : 0 ≤ 1
idle = ground arith

settle-Counted_example :
    Counted store windows
      (settle_script reserve_here.2 (request windows amount limits 8) actual).1
      actual
settle-Counted_example =
    settle-Counted store windows amount limits 8 marker refl refl actual refl idle admitted

abbrev held : Reservation
held = record { windows = windows; estimate = amount; limits = limits; marker_key = some 8 }

-- What was used passes the daily cost.
settle_test : (settle_script reserve_here.2 held actual).0 ≡ hard_limit_exceeded
unfolding settle_script reserve_script ◌+ℤ◌ ◌-ℤ◌
settle_test = refl

settle_twice_example :
    settle_script
      (settle_script reserve_here.2 (with_marker held 8) actual).1
      (with_marker held 8)
      actual
    ≡ settle_script reserve_here.2 (with_marker held 8) actual
settle_twice_example = settle_twice reserve_here.2 held actual 8
