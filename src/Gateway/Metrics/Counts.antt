-- ===== src/Gateway/Metrics/Counts.antt =====
-- internal/api/gateway/middleware.go: `Snapshot` after any calls of `Record`.
use cova.Base.{ℕ, zero, suc, ◌+◌, ◌^◌, ◌≤◌, ◌<◌, ◌≡◌, refl, subst, List, [], ◌∷◌, length, arith}
use cova.Gateway.Metrics.{
  Metrics, new_gateway_metrics, note, MetricsSnapshot, snapshot, fresh_buckets, recent_in,
}
use cova.Gateway.Metrics.Buckets.{
  minute, recent-minute, Ring-later, Ring-fresh_buckets, fresh_buckets-sum, length-fresh_buckets,
}
use cova.Gateway.Metrics.Log.{
  Entry, note_all, Rises, tally, within_minute, answered, is_auth, is_rate_limit, is_validation,
  count_of, Fits, Adds, note_step,
}

-- A snapshot says what the log says.
pub record Reports (now : ℕ) (log : List Entry) (s : MetricsSnapshot) : Type 0 where
  pub total : s.requests_total ≡ length log
  pub last_minute : s.requests_last_1m ≡ tally (within_minute now) log
  pub auth : s.auth_rejected ≡ tally (λ e. is_auth e.outcome) log
  pub rate : s.rate_limit_rejected ≡ tally (λ e. is_rate_limit e.outcome) log
  pub validation : s.validation_rejected ≡ tally (λ e. is_validation e.outcome) log
  pub statuses : (code : ℕ) → count_of code s.status_code_count ≡ tally (answered code) log

Rises-le : (start now : ℕ) (log : List Entry) → Rises start log now → start ≤ now
unfolding Rises
Rises-le start now [] h = h
Rises-le start now (e ∷ log) h = let le = Rises-le e.second now log h.1 in omega (arith, h.0, le)

Adds-nil : (now : ℕ) (m : Metrics) → Adds now [] m m
unfolding tally
Adds-nil now m = record {
  total = omega arith;
  auth = omega arith;
  rate = omega arith;
  validation = omega arith;
  statuses = λ code. omega arith;
  last_minute = omega arith;
}

Adds-cons :
    (now : ℕ) (e : Entry) (log : List Entry) (m m' after : Metrics)
    → Adds now (e ∷ []) m m'
    → Adds now log m' after
    → Adds now (e ∷ log) m after
unfolding tally
Adds-cons now e log m m' after one more = record {
  total = let a = one.total in let b = more.total in omega (arith, a, b);
  auth = let a = one.auth in let b = more.auth in omega (arith, a, b);
  rate = let a = one.rate in let b = more.rate in omega (arith, a, b);
  validation = let a = one.validation in let b = more.validation in omega (arith, a, b);
  statuses =
      λ code. (let a = one.statuses code in let b = more.statuses code in omega (arith, a, b));
  last_minute = let a = one.last_minute in let b = more.last_minute in omega (arith, a, b);
}

note_all-Adds :
    (now n start : ℕ) (log : List Entry) (m : Metrics)
    → Fits n start m
    → n + length log < 2 ^ 64
    → 1 ≤ start
    → Rises start log now
    → (k : ℕ) × Fits (n + length log) k (note_all log m) × Adds now log m (note_all log m)
unfolding note_all Rises
note_all-Adds now n start [] m f room one rises =
    (start, subst (λ q. Fits q start m) (omega arith) f, Adds-nil now m)
note_all-Adds now n start (e ∷ log) m f room one rises =
    let s =
      note_step now e n start m f (omega arith) one rises.0 (Rises-le e.second now log rises.1) in
    let (k, fits, adds) =
      note_all-Adds now (n + 1) e.second log (note e.status e.outcome e.second m) s.0 (omega arith)
        (omega (arith, rises.0)) rises.1 in
    (
      k,
      subst (λ q. Fits q k (note_all log (note e.status e.outcome e.second m))) (omega arith) fits,
      Adds-cons now e log m _ _ s.1 adds,
    )

fresh_minute : (now n : ℕ) → minute now (fresh_buckets n) ≡ 0
unfolding minute fresh_buckets recent_in
fresh_minute now zero = refl
fresh_minute now (suc n) = omega (arith, fresh_minute now n)

fresh-Fits : Fits 0 1 new_gateway_metrics
unfolding new_gateway_metrics count_of
fresh-Fits = record {
  total = omega arith;
  auth = omega arith;
  rate = omega arith;
  validation = omega arith;
  statuses = λ code. omega arith;
  ticks = omega (arith, fresh_buckets-sum 60);
  ring = Ring-later 0 1 0 (fresh_buckets 60) (omega arith) (Ring-fresh_buckets 60 0);
  size = length-fresh_buckets 60;
}

-- While fewer than 2 ^ 64 answers are recorded, at seconds from 1 on that do not fall, the snapshot at
-- a later second counts the answers, those of the last minute, those of each outcome that rejects, and
-- those of each status.
pub snapshot-Reports :
    (now : ℕ) (log : List Entry)
    → length log < 2 ^ 64
    → Rises 1 log now
    → Reports now log (snapshot now (note_all log new_gateway_metrics))
unfolding snapshot
snapshot-Reports now log room rises =
    let m = note_all log new_gateway_metrics in
    let (k, fits, adds) =
      note_all-Adds now 0 1 log new_gateway_metrics fresh-Fits (omega arith) (omega arith) rises in
    let ticks = fits.ticks in
    let minutes = recent-minute now m.per_second (omega (arith, ticks)) in
    unfold new_gateway_metrics count_of in
    record {
      total = let a = adds.total in omega (arith, a);
      last_minute =
          let a = adds.last_minute in
          let z = fresh_minute now 60 in rw minutes (omega (arith, a, z));
      auth = let a = adds.auth in omega (arith, a);
      rate = let a = adds.rate in omega (arith, a);
      validation = let a = adds.validation in omega (arith, a);
      statuses = λ code. (let a = adds.statuses code in omega (arith, a));
    }
