-- ===== src/Gateway/Metrics/Log.antt =====
-- internal/api/gateway/middleware.go: what `Snapshot` says of the calls of `Record` before it.
use cova.Base.{
  ℕ, ◌+◌, ◌%◌, ◌^◌, ◌≤◌, ◌<◌, ◌≡◌, refl, ◌∙◌, Bool, true, false, List, [], ◌∷◌, length, ltb, ◌==◌,
  if◌then◌else◌, inl, inr, Bool-cases, arith,
}
use cova.Gateway.Metrics.{
  Outcome, forwarded, rejected_auth, rejected_rate_limit, rejected_validation, Metrics, up,
  count_status, count_outcome, given_status, note, tick_at,
}
use cova.Gateway.Metrics.Buckets.{
  minute, sum, Ring, minute-tick_at, sum-tick_at, length-tick_at, Ring-later, Ring-tick_at,
}

-- An answer: its status, its outcome, and the second of its end.
pub record Entry : Type 0 where
  pub status : ℕ
  pub outcome : Outcome
  pub second : ℕ

unfoldable pub note_all : List Entry → Metrics → Metrics
note_all [] m = m
note_all (e ∷ log) m = note_all log (note e.status e.outcome e.second m)

-- The seconds do not fall, from `start` on, to `now`.
unfoldable pub Rises : ℕ → List Entry → ℕ → Type 0
Rises start [] now = start ≤ now
Rises start (e ∷ log) now = (start ≤ e.second) × Rises e.second log now

-- How many entries pass a test.
unfoldable pub tally : (Entry → Bool) → List Entry → ℕ
tally test [] = 0
tally test (e ∷ log) = (if test e then 1 else 0) + tally test log

abbrev pub within_minute : ℕ → Entry → Bool
within_minute now e = ltb now (e.second + 60)

abbrev pub answered : ℕ → Entry → Bool
answered code e = given_status e.status == code

unfoldable pub is_auth : Outcome → Bool
is_auth rejected_auth = true
is_auth forwarded = false
is_auth rejected_rate_limit = false
is_auth rejected_validation = false

unfoldable pub is_rate_limit : Outcome → Bool
is_rate_limit rejected_rate_limit = true
is_rate_limit forwarded = false
is_rate_limit rejected_auth = false
is_rate_limit rejected_validation = false

unfoldable pub is_validation : Outcome → Bool
is_validation rejected_validation = true
is_validation forwarded = false
is_validation rejected_auth = false
is_validation rejected_rate_limit = false

-- The count of a status, 0 if there is none.
unfoldable pub count_of : ℕ → List (ℕ × ℕ) → ℕ
count_of code [] = 0
count_of code ((c, n) ∷ counts) = if c == code then n else count_of code counts

count_of-count_status :
    (code status : ℕ) (counts : List (ℕ × ℕ))
    → count_of status counts + 1 < 2 ^ 64
    → count_of code (count_status status counts)
      ≡ (if status == code then 1 else 0) + count_of code counts
unfolding count_of count_status up
count_of-count_status code status [] room = ground arith
count_of-count_status code status ((c, n) ∷ counts) room = elim (Bool-cases (c == status)) [
  | inl same ↦ ground arith
  | inr other ↦
      let ih = count_of-count_status code status counts (ground arith) in
      rw other (ground (arith, ih))
]

-- No counter has passed `n`, and the buckets are in order up to `latest`.
pub record Fits (n latest : ℕ) (m : Metrics) : Type 0 where
  pub total : m.total ≤ n
  pub auth : m.auth_rejected ≤ n
  pub rate : m.rate_limit_rejected ≤ n
  pub validation : m.validation_rejected ≤ n
  pub statuses : (code : ℕ) → count_of code m.status_code ≤ n
  pub ticks : sum m.per_second ≤ n
  pub ring : Ring latest 0 m.per_second
  pub size : length m.per_second ≡ 60

-- The counters of the second metrics are those of the first and the entries of the log.
pub record Adds (now : ℕ) (log : List Entry) (m after : Metrics) : Type 0 where
  pub total : after.total ≡ length log + m.total
  pub auth : after.auth_rejected ≡ tally (λ e. is_auth e.outcome) log + m.auth_rejected
  pub rate :
      after.rate_limit_rejected ≡ tally (λ e. is_rate_limit e.outcome) log + m.rate_limit_rejected
  pub validation :
      after.validation_rejected ≡ tally (λ e. is_validation e.outcome) log + m.validation_rejected
  pub statuses :
      (code : ℕ)
      → count_of code after.status_code ≡ tally (answered code) log + count_of code m.status_code
  pub last_minute :
      minute now after.per_second ≡ tally (within_minute now) log + minute now m.per_second

-- What `count_outcome` does to each counter.
record Outcomes (o : Outcome) (m after : Metrics) : Type 0 where
  total : after.total ≡ m.total
  status_code : after.status_code ≡ m.status_code
  per_second : after.per_second ≡ m.per_second
  auth : after.auth_rejected ≡ (if is_auth o then 1 else 0) + m.auth_rejected
  rate : after.rate_limit_rejected ≡ (if is_rate_limit o then 1 else 0) + m.rate_limit_rejected
  validation :
      after.validation_rejected ≡ (if is_validation o then 1 else 0) + m.validation_rejected

count_outcome-Outcomes :
    (o : Outcome) (m : Metrics)
    → m.auth_rejected + 1 < 2 ^ 64
    → m.rate_limit_rejected + 1 < 2 ^ 64
    → m.validation_rejected + 1 < 2 ^ 64
    → Outcomes o m (count_outcome o m)
unfolding count_outcome up is_auth is_rate_limit is_validation
count_outcome-Outcomes forwarded m a r v = record {
  total = refl;
  status_code = refl;
  per_second = refl;
  auth = omega arith;
  rate = omega arith;
  validation = omega arith;
}
count_outcome-Outcomes rejected_auth m a r v = record {
  total = refl;
  status_code = refl;
  per_second = refl;
  auth = omega arith;
  rate = omega arith;
  validation = omega arith;
}
count_outcome-Outcomes rejected_rate_limit m a r v = record {
  total = refl;
  status_code = refl;
  per_second = refl;
  auth = omega arith;
  rate = omega arith;
  validation = omega arith;
}
count_outcome-Outcomes rejected_validation m a r v = record {
  total = refl;
  status_code = refl;
  per_second = refl;
  auth = omega arith;
  rate = omega arith;
  validation = omega arith;
}

module _ (now : ℕ) where
  pub note_step :
      (e : Entry) (n start : ℕ) (m : Metrics)
      → Fits n start m
      → n + 1 < 2 ^ 64
      → 1 ≤ start
      → start ≤ e.second
      → e.second ≤ now
      → Fits (n + 1) e.second (note e.status e.outcome e.second m)
        × Adds now (e ∷ []) m (note e.status e.outcome e.second m)
  unfolding note tally up
  note_step e n start m f room one order past =
      let counted = record m {
        total = up m.total;
        status_code = count_status (given_status e.status) m.status_code;
        per_second = tick_at e.second (e.second % 60) m.per_second;
      } in
      let a = f.auth in
      let r = f.rate in
      let v = f.validation in
      let o =
        count_outcome-Outcomes e.outcome counted (omega (arith, a)) (omega (arith, r))
          (omega (arith, v)) in
      let sums = sum-tick_at e.second (e.second % 60) m.per_second in
      let s = f.statuses in
      let ticks = f.ticks in
      let statuses = λ (code : ℕ).
        count_of-count_status code (given_status e.status) m.status_code
          (let q = s (given_status e.status) in omega (arith, q)) in
      let minutes =
        minute-tick_at now e.second start 0 (e.second % 60) m.per_second f.ring order (omega arith)
          past (omega arith) (rw f.size (omega arith)) (omega (arith, ticks)) in
      let t = f.total in
      (
        record {
          total = rw o.total (ground arith);
          auth = rw o.auth (ground arith);
          rate = rw o.rate (ground arith);
          validation = rw o.validation (ground arith);
          statuses = λ code. rw (o.status_code, statuses code) (let q = s code in ground arith);
          ticks = rw o.per_second (omega (arith, sums, ticks));
          ring = rw o.per_second (
              Ring-tick_at e.second 0 (e.second % 60) m.per_second (omega arith)
                (Ring-later start e.second 0 m.per_second order f.ring));
          size = rw o.per_second (length-tick_at e.second (e.second % 60) m.per_second ∙ f.size);
        },
        record {
          total = rw o.total (omega (arith, t));
          auth = rw o.auth (omega arith);
          rate = rw o.rate (omega arith);
          validation = rw o.validation (omega arith);
          statuses = λ code. rw (o.status_code, statuses code) (omega arith);
          last_minute = rw (o.per_second, minutes) (omega arith);
        },
      )
