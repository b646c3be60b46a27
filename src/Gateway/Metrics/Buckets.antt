-- ===== src/Gateway/Metrics/Buckets.antt =====
-- internal/api/gateway/middleware.go: the ring of 60 buckets of `gatewayMetrics`, one for each second
-- of the last minute.
use cova.Base.{
  ℕ, zero, suc, ◌+◌, ◌%◌, ◌^◌, ◌≤◌, ◌<◌, ◌≡◌, ◌⊎◌, refl, ap, List, [], ◌∷◌, length, ltb,
  if◌then◌else◌, inl, inr, arith,
}
use cova.Gateway.Metrics.{Bucket, tick, tick_at, up, recent, recent_in, fresh_buckets}

-- What the buckets count in the minute before `now`, and in all.
unfoldable pub minute : ℕ → List Bucket → ℕ
minute now [] = 0
minute now (b ∷ bs) = recent_in now b + minute now bs

unfoldable pub sum : List Bucket → ℕ
sum [] = 0
sum (b ∷ bs) = b.count + sum bs

-- The buckets from index `i` on hold seconds of that remainder, up to `latest`, or none yet.
unfoldable pub Ring : ℕ → ℕ → List Bucket → Type 0
Ring latest i [] = Unit
Ring latest i (b ∷ bs) =
    (b.second ≤ latest) × ((b.second ≡ 0) ⊎ (b.second % 60 ≡ i)) × Ring latest (i + 1) bs

recent_in_le : (now : ℕ) (b : Bucket) → recent_in now b ≤ b.count
unfolding recent_in
recent_in_le now b = ground arith

minute-le-sum : (now : ℕ) (bs : List Bucket) → minute now bs ≤ sum bs
unfolding minute sum
minute-le-sum now [] = omega arith
minute-le-sum now (b ∷ bs) = omega (arith, recent_in_le now b, minute-le-sum now bs)

-- Without overflow the code's sum is the sum.
pub recent-minute : (now : ℕ) (bs : List Bucket) → sum bs < 2 ^ 64 → recent now bs ≡ minute now bs
unfolding recent minute sum
recent-minute now [] h = refl
recent-minute now (b ∷ bs) h =
    let ih = recent-minute now bs (omega arith) in
    let low = minute-le-sum now bs in
    let one = recent_in_le now b in rw ih (omega (arith, low, one))

abbrev pub in_minute : ℕ → ℕ → ℕ
in_minute now sec = if ltb now (sec + 60) then 1 else 0

-- A bucket of another second of the same remainder is too old to count.
tick_recent :
    (now sec latest i : ℕ) (b : Bucket)
    → b.second ≤ latest
    → (b.second ≡ 0) ⊎ (b.second % 60 ≡ i)
    → latest ≤ sec
    → 1 ≤ sec
    → sec ≤ now
    → sec % 60 ≡ i
    → b.count + 1 < 2 ^ 64
    → recent_in now (tick sec b) ≡ recent_in now b + in_minute now sec
unfolding recent_in tick up
tick_recent now sec latest i b past (inl none_yet) order one now_or_past index room = ground arith
tick_recent now sec latest i b past (inr same) order one now_or_past index room = ground arith

pub minute-tick_at :
    (now sec latest i j : ℕ) (bs : List Bucket)
    → Ring latest i bs
    → latest ≤ sec
    → 1 ≤ sec
    → sec ≤ now
    → sec % 60 ≡ i + j
    → j < length bs
    → sum bs + 1 < 2 ^ 64
    → minute now (tick_at sec j bs) ≡ minute now bs + in_minute now sec
unfolding minute tick_at Ring sum
minute-tick_at now sec latest i j [] ring order one past index inside room = absurd (omega arith)
minute-tick_at now sec latest i zero (b ∷ bs) ring order one past index inside room =
    let here =
      tick_recent now sec latest i b ring.0 ring.1 order one past (omega arith) (omega arith) in
    rw here (omega arith)
minute-tick_at now sec latest i (suc j) (b ∷ bs) ring order one past index inside room =
    let ih =
      minute-tick_at now sec latest (i + 1) j bs ring.2 order one past (omega arith) (omega arith)
        (omega arith) in
    rw ih (omega arith)

tick_sum : (sec : ℕ) (b : Bucket) → (tick sec b).count ≤ b.count + 1
unfolding tick up
tick_sum sec b = ground arith

pub sum-tick_at : (sec j : ℕ) (bs : List Bucket) → sum (tick_at sec j bs) ≤ sum bs + 1
unfolding sum tick_at
sum-tick_at sec j [] = omega arith
sum-tick_at sec zero (b ∷ bs) = omega (arith, tick_sum sec b)
sum-tick_at sec (suc j) (b ∷ bs) = omega (arith, sum-tick_at sec j bs)

pub length-tick_at : (sec j : ℕ) (bs : List Bucket) → length (tick_at sec j bs) ≡ length bs
unfolding tick_at
length-tick_at sec j [] = refl
length-tick_at sec zero (b ∷ bs) = refl
length-tick_at sec (suc j) (b ∷ bs) = ap suc (length-tick_at sec j bs)

tick_second : (sec : ℕ) (b : Bucket) → (tick sec b).second ≡ sec
unfolding tick
tick_second sec b = ground arith

pub Ring-later :
    (latest later i : ℕ) (bs : List Bucket) → latest ≤ later → Ring latest i bs → Ring later i bs
unfolding Ring
Ring-later latest later i [] h ring = tt
Ring-later latest later i (b ∷ bs) h ring =
    (omega (arith, ring.0), ring.1, Ring-later latest later (i + 1) bs h ring.2)

pub Ring-tick_at :
    (sec i j : ℕ) (bs : List Bucket)
    → sec % 60 ≡ i + j
    → Ring sec i bs
    → Ring sec i (tick_at sec j bs)
unfolding Ring tick_at
Ring-tick_at sec i j [] index ring = tt
Ring-tick_at sec i zero (b ∷ bs) index ring =
    (rw (tick_second sec b) (omega arith), inr (rw (tick_second sec b) (omega arith)), ring.2)
Ring-tick_at sec i (suc j) (b ∷ bs) index ring =
    (ring.0, ring.1, Ring-tick_at sec (i + 1) j bs (omega arith) ring.2)

pub Ring-fresh_buckets : (n i : ℕ) → Ring 0 i (fresh_buckets n)
unfolding Ring fresh_buckets
Ring-fresh_buckets zero i = tt
Ring-fresh_buckets (suc n) i = (omega arith, inl refl, Ring-fresh_buckets n (i + 1))

pub fresh_buckets-sum : (n : ℕ) → sum (fresh_buckets n) ≡ 0
unfolding sum fresh_buckets
fresh_buckets-sum zero = refl
fresh_buckets-sum (suc n) = omega (arith, fresh_buckets-sum n)

pub length-fresh_buckets : (n : ℕ) → length (fresh_buckets n) ≡ n
unfolding fresh_buckets
length-fresh_buckets zero = refl
length-fresh_buckets (suc n) = ap suc (length-fresh_buckets n)
