-- ===== src/Gateway/Metrics.antt =====
-- internal/api/gateway/middleware.go: `gatewayMetrics`. `perSecond` has 60 buckets; a second is a
-- number since 1970. Counters are unsigned 64-bit numbers.
mod Buckets
pub mod Log
pub mod Counts
use cova.Base.{ℕ, zero, suc, ◌+◌, ◌%◌, ◌^◌, List, [], ◌∷◌, ltb, ◌==◌, if◌then◌else◌}

pub data Outcome : Type 0 where
  forwarded : Outcome
  rejected_auth : Outcome
  rejected_rate_limit : Outcome
  rejected_validation : Outcome

pub record Bucket : Type 0 where
  pub second : ℕ
  pub count : ℕ

pub record Metrics : Type 0 where
  pub total : ℕ
  pub status_code : List (ℕ × ℕ)
  pub rate_limit_rejected : ℕ
  pub auth_rejected : ℕ
  pub validation_rejected : ℕ
  pub per_second : List Bucket

unfoldable pub fresh_buckets : ℕ → List Bucket
fresh_buckets zero = []
fresh_buckets (suc n) = (record { second = 0; count = 0 }) ∷ fresh_buckets n

unfoldable pub new_gateway_metrics : Metrics
unfolding fresh_buckets
new_gateway_metrics = record {
  total = 0;
  status_code = [];
  rate_limit_rejected = 0;
  auth_rejected = 0;
  validation_rejected = 0;
  per_second = fresh_buckets 60;
}

-- `++` on a counter
unfoldable pub up : ℕ → ℕ
up n = (n + 1) % 2 ^ 64

-- `m.statusCode[status]++`
unfoldable pub count_status : ℕ → List (ℕ × ℕ) → List (ℕ × ℕ)
unfolding up
count_status status [] = (status, 1) ∷ []
count_status status ((code, n) ∷ counts) =
    let rest = count_status status counts in
    if code == status then (code, up n) ∷ counts else (code, n) ∷ rest

-- One more in the bucket of a second, which starts again when it held another second.
unfoldable pub tick : ℕ → Bucket → Bucket
unfolding up
tick sec b =
    if b.second == sec then record b { count = up b.count } else record { second = sec; count = 1 }

unfoldable pub tick_at : ℕ → ℕ → List Bucket → List Bucket
unfolding tick
tick_at sec i [] = []
tick_at sec zero (b ∷ bs) = tick sec b ∷ bs
tick_at sec (suc i) (b ∷ bs) = b ∷ tick_at sec i bs

unfoldable pub count_outcome : Outcome → Metrics → Metrics
unfolding up
count_outcome forwarded m = m
count_outcome rejected_auth m = record m { auth_rejected = up m.auth_rejected }
count_outcome rejected_rate_limit m = record m { rate_limit_rejected = up m.rate_limit_rejected }
count_outcome rejected_validation m = record m { validation_rejected = up m.validation_rejected }

unfoldable pub given_status : ℕ → ℕ
given_status zero = 200
given_status (suc n) = suc n

-- `Record`, at a second.
unfoldable pub note : ℕ → Outcome → ℕ → Metrics → Metrics
unfolding count_outcome count_status given_status tick_at up
note status outcome sec m = count_outcome outcome (record m {
  total = up m.total;
  status_code = count_status (given_status status) m.status_code;
  per_second = tick_at sec (sec % 60) m.per_second;
})

unfoldable pub recent_in : ℕ → Bucket → ℕ
recent_in now b = if b.second == 0 then 0 else if ltb now (b.second + 60) then b.count else 0

unfoldable pub recent : ℕ → List Bucket → ℕ
unfolding recent_in
recent now [] = 0
recent now (b ∷ bs) = (recent_in now b + recent now bs) % 2 ^ 64

pub record MetricsSnapshot : Type 0 where
  pub requests_total : ℕ
  pub requests_last_1m : ℕ
  pub status_code_count : List (ℕ × ℕ)
  pub rate_limit_rejected : ℕ
  pub auth_rejected : ℕ
  pub validation_rejected : ℕ

-- `Snapshot`, without its times and its rates, which are floating point.
unfoldable pub snapshot : ℕ → Metrics → MetricsSnapshot
unfolding recent
snapshot now m = record {
  requests_total = m.total;
  requests_last_1m = recent now m.per_second;
  status_code_count = m.status_code;
  rate_limit_rejected = m.rate_limit_rejected;
  auth_rejected = m.auth_rejected;
  validation_rejected = m.validation_rejected;
}
