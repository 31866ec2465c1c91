-- ===== src/Quota/Redis.antt =====
-- packages/quota/src/redis-quota.ts: the quota counters of one identity in Redis and the markers of
-- its requests. A script runs alone, so it is one function on the store. Counters are integers, since
-- a settlement may lower them; costs are millionths of a CNY. The expiry of keys is the environment's
-- and is not in the model.
pub mod Scripts
pub mod Laws
pub mod Life
mod Examples
use ucli_server.Base.{ℕ, Bool, Option, List}
use ucli_server.Base.Int.{ℤ}

-- The windows that `quotaReservationKeys` writes into the keys: a day, a month, a second, a minute.
pub record Windows : Type 0 where
  pub day : ℕ
  pub month : ℕ
  pub second : ℕ
  pub minute : ℕ

-- The limits, where 0 is no limit.
pub record Limits : Type 0 where
  pub daily_tokens : ℕ
  pub monthly_tokens : ℕ
  pub daily_cost : ℕ
  pub monthly_cost : ℕ
  pub qps : ℕ
  pub tpm : ℕ
  pub concurrency : ℕ

pub record Amount : Type 0 where
  pub tokens : ℕ
  pub cost : ℕ

-- The second field of a script's answer.
pub data Code : Type 0 where
  ok hard_limit_exceeded reservation_conflict reservation_missing : Code
  qps_exceeded tpm_exceeded concurrency_exceeded : Code
  daily_token_quota monthly_token_quota daily_cost_quota monthly_cost_quota : Code

pub data State : Type 0 where
  reserved settled : State

pub record Correction : Type 0 where
  pub operation_id : ℕ
  pub cost : ℕ

-- The JSON document under a marker's key.
pub record Marker : Type 0 where
  pub state : State
  pub fingerprint : ℕ
  pub recover_after : ℕ
  pub generation : Option ℕ
  pub concurrency_released : Bool
  pub actual : Option Amount
  pub result : Code
  pub corrected_cost : Option ℕ
  pub corrections : List Correction
  pub correction_version : ℕ

-- A counter by the window in its key; `none` is an absent key.
abbrev pub Counter : Type 0
Counter = ℕ → Option ℤ

pub record Store : Type 0 where
  pub daily_tokens : Counter
  pub monthly_tokens : Counter
  pub daily_cost : Counter
  pub monthly_cost : Counter
  pub qps : Counter
  pub tpm : Counter
  pub concurrency : Option ℤ
  pub generation : Option ℕ
  pub markers : ℕ → Option Marker

-- What a request keeps of its reservation.
pub record Reservation : Type 0 where
  pub windows : Windows
  pub estimate : Amount
  pub limits : Limits
  pub marker_key : Option ℕ
