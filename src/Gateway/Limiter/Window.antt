-- ===== src/Gateway/Limiter/Window.antt =====
-- internal/api/gateway/middleware.go: `ipLimiter` over a window of time, after any earlier calls.
use cova.Base.{ℕ, ◌+◌, ◌-◌, ◌*◌, ◌≤◌, String, ◌≡◌, refl, ◌∙◌, List, [], ◌∷◌, lookup, arith}
use cova.Gateway.Limiter.{Float64, Limiter, ttl, allow, new_limiter}
use cova.Gateway.Limiter.Available.{available_cap, SoundEntries, SoundEntries-later, mul_le}
use cova.Gateway.Limiter.Bound.{
  RatedLimiter, Rated, allow-Step, granted, asks, Rises, granted_spends,
}

unfoldable pub after_calls : List (String × ℕ) → Limiter → Limiter
after_calls [] l = l
after_calls ((key, now) ∷ calls) l = after_calls calls (allow key now l).0

mul_one_le : (a n : ℕ) → 1 ≤ n → a ≤ n * a
mul_one_le a n h = let le = mul_le a 1 n h in omega (arith, le)

-- A rated limiter with the settings of another, and sound buckets.
record Kin (r slack now : ℕ) (l m : Limiter) : Type 0 where
  one : m.float.one ≡ l.float.one
  burst : m.burst ≡ l.burst
  rated : RatedLimiter r slack m
  sound : SoundEntries m.burst now m.entries

after_calls-Kin :
    (r slack start stop : ℕ) (calls : List (String × ℕ)) (l m : Limiter)
    → Kin r slack start l m
    → Rises start calls stop
    → Kin r slack stop l (after_calls calls m)
unfolding after_calls Rises
after_calls-Kin r slack start stop [] l m h rises = record {
  one = h.one;
  burst = h.burst;
  rated = h.rated;
  sound = SoundEntries-later m.burst start stop m.entries rises h.sound;
}
after_calls-Kin r slack start stop ((key, now) ∷ calls) l m h rises =
    let here = SoundEntries-later m.burst start now m.entries rises.0 h.sound in
    let s = allow-Step r slack key key now m h.rated here in
    after_calls-Kin r slack now stop calls l (allow key now m).0
      (record {
        one = s.one ∙ h.one;
        burst = s.burst ∙ h.burst;
        rated = s.rated;
        sound = rw s.burst s.sound;
      })
      rises.1

settings_alike :
    (n more : ℕ) {t t' c c' : ℕ} → t ≡ t' → c ≡ c' → n * t ≤ c + more → n * t' ≤ c' + more
settings_alike n more e f h = rw (e, f) at h

granted_from :
    (r slack : ℕ) (k : String) (window : List (String × ℕ)) (start stop : ℕ) (l m : Limiter)
    → Kin r slack start l m
    → Rises start window stop
    → granted k window m * l.float.one
      ≤ l.burst + ((stop - start) * r + asks k window * (3 * slack))
granted_from r slack k window start stop l m kin within =
    let spends = granted_spends r slack k start stop window m kin.rated kin.sound within in
    let full = available_cap m.burst r start (lookup k m.entries) in
    settings_alike (granted k window m) ((stop - start) * r + asks k window * (3 * slack)) kin.one
      kin.burst (omega (arith, spends, full))

new_limiter-RatedLimiter :
    (float : Float64) (rate r slack burst : ℕ)
    → float.round (burst * float.one) ≡ burst * float.one
    → Rated r slack float rate (burst * float.one)
    → RatedLimiter r slack (new_limiter float rate burst)
unfolding new_limiter
new_limiter-RatedLimiter float rate r slack burst exact h = rw exact h

-- In every window of time, of one key, at most the burst and what the rate brings in the window is let
-- through, and what rounding adds, three times `slack` for a request of the key: after any earlier
-- calls on a new limiter, for any calls of any keys at times that do not fall, if the burst is a
-- float64 of one token or more, an empty bucket is full again within the time to live, and up to the
-- burst a float64 is within `slack`, itself at most a token, of the exact sum or difference, and the
-- gain of a time within `slack` of `r` units for each nanosecond.
pub granted_bound :
    (float : Float64) (rate r slack burst : ℕ) (k : String) (before window : List (String × ℕ))
    (first start stop : ℕ)
    → 1 ≤ burst
    → float.round (burst * float.one) ≡ burst * float.one
    → burst * float.one ≤ ttl * r
    → slack ≤ float.one
    → ((n : ℕ) → n ≤ burst * float.one → float.round n ≤ n + slack)
    → ((time : ℕ) → time * r ≤ burst * float.one → float.times rate time ≤ time * r + slack)
    → Rises first before start
    → Rises start window stop
    → granted k window (after_calls before (new_limiter float rate burst)) * float.one
      ≤ burst * float.one + ((stop - start) * r + asks k window * (3 * slack))
granted_bound float rate r slack burst k before window first start stop some_burst exact fills small
      near gains early within =
    let l = new_limiter float rate burst in
    let kept =
      after_calls-Kin r slack first start before l l
        (record {
          one = refl;
          burst = refl;
          rated = new_limiter-RatedLimiter float rate r slack burst exact (record {
            small = small;
            filled = mul_one_le float.one burst some_burst;
            fills = fills;
            near = near;
            gains = gains;
          });
          sound = unfold new_limiter in tt;
        })
        early in
    let bound = granted_from r slack k window start stop l (after_calls before l) kept within in
    let one : l.float.one ≡ float.one = unfold new_limiter in refl in
    let full : l.burst ≡ burst * float.one = unfold new_limiter in exact in
    settings_alike (granted k window (after_calls before l))
      ((stop - start) * r + asks k window * (3 * slack)) one full bound
