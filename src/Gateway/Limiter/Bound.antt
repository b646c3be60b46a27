-- ===== src/Gateway/Limiter/Bound.antt =====
-- internal/api/gateway/middleware.go: how many requests of one key `ipLimiter` lets through.
use cova.Base.{
  ℕ, suc, ◌+◌, ◌-◌, ◌*◌, ◌%◌, ◌^◌, ◌≤◌, String, ◌≡◌, refl, subst, Bool, true, false, Option, none,
  some, List, [], ◌∷◌, lookup, insert, ltb, leb, ◌==◌, if◌then◌else◌, inl, inr, Bool-cases, ◌=s◌,
  =s_iff, arith, lookup-insert,
}
use cova.Gateway.Limiter.{
  Float64, Bucket, Limiter, ttl, at_most, allow, allow_held, cleaned, cleanup_if_needed, spend,
  refilled,
}
use cova.Gateway.Limiter.Available.{
  available, available_later, available-evict, Sound, SoundEntries, SoundEntries-evict,
  SoundEntries-insert, SoundEntries-later, SoundEntries-lookup, mul_split,
}

-- What a request of `key` let through costs `k`.
abbrev pub cost : ℕ → Bool → Bool → ℕ
cost one same allowed = if same then (if allowed then one else 0) else 0

-- What rounding may add for `k` in one call: to the gain, to the sum and to the difference.
abbrev pub error : ℕ → Bool → ℕ
error slack same = if same then 3 * slack else 0

-- The float64 operations are within `slack` of the exact ones up to the burst, where `r` units come in
-- a nanosecond, and an empty bucket is full within the time to live.
pub record Rated (r slack : ℕ) (float : Float64) (rate burst : ℕ) : Type 0 where
  pub small : slack ≤ float.one
  pub filled : float.one ≤ burst
  pub fills : burst ≤ ttl * r
  pub near : (n : ℕ) → n ≤ burst → float.round n ≤ n + slack
  pub gains : (time : ℕ) → time * r ≤ burst → float.times rate time ≤ time * r + slack

abbrev pub RatedLimiter : ℕ → ℕ → Limiter → Type 0
RatedLimiter r slack l = Rated r slack l.float l.rate l.burst

-- One call: the settings stay, the buckets stay sound, and what `k` has to spend falls by its cost.
pub record Step (r slack : ℕ) (k key : String) (now : ℕ) (l : Limiter) (after : Limiter × Bool)
    : Type 0 where
  pub one : after.0.float.one ≡ l.float.one
  pub burst : after.0.burst ≡ l.burst
  pub rated : RatedLimiter r slack after.0
  pub sound : SoundEntries l.burst now after.0.entries
  pub spent :
      available l.burst r now (lookup k after.0.entries) + cost l.float.one (key =s k) after.1
      ≤ available l.burst r now (lookup k l.entries) + error slack (key =s k)

-- A sum that is rounded and cut off at the burst.
refilled_within :
    (burst slack exact gain gained rounded : ℕ)
    → (exact ≤ burst → gain ≤ exact + slack)
    → (gained + gain ≤ burst → rounded ≤ gained + gain + slack)
    → at_most burst rounded ≤ gained + exact + 2 * slack
unfolding at_most
refilled_within burst slack exact gain gained rounded gains near =
    elim (Bool-cases (leb exact burst)) [
      | inr much ↦ ground arith
      | inl little ↦
          let g = gains (ground arith) in
          elim (Bool-cases (leb (gained + gain) burst)) [
            | inr over ↦ ground (arith, g)
            | inl under ↦ let n = near (ground arith) in ground (arith, g, n)
          ]
    ]

refilled-available :
    (r slack : ℕ) (l : Limiter) (now : ℕ) (b : Bucket)
    → RatedLimiter r slack l
    → Sound l.burst now b
    → (refilled l now b ≤ l.burst)
      × (refilled l now b ≤ available l.burst r now (some b) + 2 * slack)
unfolding refilled available at_most
refilled-available r slack l now b rated h = elim (Bool-cases (ltb b.last now)) [
  | inl later ↦
      let gain = l.float.times l.rate (now - b.last) in
      let within =
        refilled_within l.burst slack ((now - b.last) * r) gain b.tokens
          (l.float.round (b.tokens + gain)) (rated.gains (now - b.last))
          (rated.near (b.tokens + gain)) in
      rw later (ground arith, ground (arith, within))
  | inr at_once ↦ let full = h.0 in rw at_once (full, ground (arith, full))
]

just_written :
    (cap rate now tokens : ℕ)
    → available cap rate now (some (record { tokens = tokens; last = now })) ≤ tokens
unfolding available at_most
just_written cap rate now tokens =
    let still : (now - now) * rate ≡ 0 =
      (let no : now - now ≡ 0 = omega arith in rw no (omega arith)) in
    rw still (ground arith)

-- A bucket just written, with `tokens` in it.
written :
    (r slack : ℕ) (k key : String) (now tokens : ℕ) (allowed : Bool) (l : Limiter)
    → RatedLimiter r slack l
    → SoundEntries l.burst now l.entries
    → tokens ≤ l.burst
    → tokens + (if allowed then l.float.one else 0)
      ≤ available l.burst r now (lookup key l.entries) + 3 * slack
    → Step r slack k key now l (
      record l { entries = insert key (record { tokens = tokens; last = now }) l.entries },
      allowed,
    )
written r slack k key now tokens allowed l rated h full paid = record {
  one = refl;
  burst = refl;
  rated = rated;
  sound = SoundEntries-insert l.burst now key _ l.entries (full, omega arith) h;
  spent = elim (Bool-cases (key =s k)) [
    | inl same ↦
        let is_k : key ≡ k = (=s_iff key k).0 same in
        let paid_k =
          subst
            (λ i.
              tokens + (if allowed then l.float.one else 0)
              ≤ available l.burst r now (lookup i l.entries) + 3 * slack)
            is_k paid in
        let new = just_written l.burst r now tokens in
        rw (lookup-insert key k _ l.entries, same) (omega (arith, paid_k, new))
    | inr other ↦ rw (lookup-insert key k _ l.entries, other) (omega arith)
  ];
}

allow_held-Step :
    (r slack : ℕ) (k key : String) (now : ℕ) (l : Limiter) (o : Option Bucket)
    → RatedLimiter r slack l
    → SoundEntries l.burst now l.entries
    → lookup key l.entries ≡ o
    → Step r slack k key now l (allow_held key now l o)
unfolding allow_held spend
allow_held-Step r slack k key now l none rated h e =
    let near = rated.near (l.burst - l.float.one) (omega arith) in
    let small = rated.small in
    let filled = rated.filled in
    written r slack k key now (l.float.round (l.burst - l.float.one)) true l rated h
      (omega (arith, near, small, filled))
      (rw e (unfold available in omega (arith, near, small, filled)))
allow_held-Step r slack k key now l (some b) rated h e =
    let n = refilled l now b in
    let full =
      refilled-available r slack l now b rated
        (SoundEntries-lookup l.burst now key b l.entries h e) in
    let within = full.0 in
    let held = full.1 in
    let small = rated.small in
    elim (Bool-cases (leb l.float.one n)) [
      | inl enough ↦
          let near = rated.near (n - l.float.one) (omega (arith, within)) in
          let paid : l.float.one ≤ n = ground (arith, enough) in
          rw enough (
            written r slack k key now (l.float.round (n - l.float.one)) true l rated h
              (omega (arith, near, within, small, paid)) (rw e (omega (arith, near, held, paid))))
      | inr short ↦
          rw short (written r slack k key now n false l rated h within (rw e (omega (arith, held))))
    ]

cleaned-Step :
    (r slack : ℕ) (k key : String) (now : ℕ) (l : Limiter) (after : Limiter × Bool)
    → RatedLimiter r slack l
    → Step r slack k key now l after
    → Step r slack k key now l (cleaned now after)
unfolding cleaned cleanup_if_needed
cleaned-Step r slack k key now l (m, allowed) rated h =
    elim (Bool-cases ((m.requests + 1) % 2 ^ 64 % 100 == 0)) [
      | inl turn ↦ rw turn (record {
        one = h.one;
        burst = h.burst;
        rated = h.rated;
        sound = SoundEntries-evict l.burst now m.entries h.sound;
        spent =
            let less = available-evict l.burst r now k m.entries rated.fills in
            let s = h.spent in omega (arith, less, s);
      })
      | inr not_yet ↦ rw not_yet (record {
        one = h.one;
        burst = h.burst;
        rated = h.rated;
        sound = h.sound;
        spent = h.spent;
      })
    ]

pub allow-Step :
    (r slack : ℕ) (k key : String) (now : ℕ) (l : Limiter)
    → RatedLimiter r slack l
    → SoundEntries l.burst now l.entries
    → Step r slack k key now l (allow key now l)
unfolding allow
allow-Step r slack k key now l rated h =
    cleaned-Step r slack k key now l (allow_held key now l (lookup key l.entries)) rated
      (allow_held-Step r slack k key now l (lookup key l.entries) rated h refl)

-- Requests of keys, each at its time, and how many of `k` are let through.
unfoldable pub granted : String → List (String × ℕ) → Limiter → ℕ
granted k [] l = 0
granted k ((key, now) ∷ calls) l =
    let (l', allowed) = allow key now l in
    let rest = granted k calls l' in if key =s k then (if allowed then suc rest else rest) else rest

-- How many requests of `k` there are, let through or not.
unfoldable pub asks : String → List (String × ℕ) → ℕ
asks k [] = 0
asks k ((key, now) ∷ calls) = let rest = asks k calls in if key =s k then suc rest else rest

-- The times do not fall, from `start` on, and end at `stop`.
unfoldable pub Rises : ℕ → List (String × ℕ) → ℕ → Type 0
Rises start [] stop = start ≤ stop
Rises start ((key, now) ∷ calls) stop = (start ≤ now) × Rises now calls stop

Rises-le : (start stop : ℕ) (calls : List (String × ℕ)) → Rises start calls stop → start ≤ stop
unfolding Rises
Rises-le start stop [] h = h
Rises-le start stop ((key, now) ∷ calls) h =
    let later = Rises-le now stop calls h.1 in omega (arith, h.0, later)

counted :
    (token n : ℕ) (same allowed : Bool)
    → (if same then (if allowed then suc n else n) else n) * token
      ≡ n * token + cost token same allowed
counted token n true true = omega arith
counted token n true false = omega arith
counted token n false allowed = omega arith

errors :
    (slack n : ℕ) (same : Bool)
    → (if same then suc n else n) * (3 * slack) ≡ n * (3 * slack) + error slack same
errors slack n true = omega arith
errors slack n false = omega arith

waits :
    (cap rate start now : ℕ) (o : Option Bucket)
    → start ≤ now
    → ((b : Bucket) → o ≡ some b → b.last ≤ start)
    → available cap rate now o ≤ available cap rate start o + (now - start) * rate
waits cap rate start now none le h = unfold available in omega arith
waits cap rate start now (some b) le h = available_later cap rate start now b le (h b refl)

pub granted_spends :
    (r slack : ℕ) (k : String) (start stop : ℕ) (calls : List (String × ℕ)) (l : Limiter)
    → RatedLimiter r slack l
    → SoundEntries l.burst start l.entries
    → Rises start calls stop
    → granted k calls l * l.float.one
      ≤ available l.burst r start (lookup k l.entries)
        + (stop - start) * r
        + asks k calls * (3 * slack)
unfolding granted Rises asks
granted_spends r slack k start stop [] l rated sound h = omega arith
granted_spends r slack k start stop ((key, now) ∷ calls) l rated sound h =
    let here = SoundEntries-later l.burst start now l.entries h.0 sound in
    let after = allow key now l in
    let s = allow-Step r slack k key now l rated here in
    let ih = granted_spends r slack k now stop calls after.0 s.rated (rw s.burst s.sound) h.1 in
    let ih' : granted k calls after.0 * l.float.one
        ≤ available l.burst r now (lookup k after.0.entries)
          + (stop - now) * r
          + asks k calls * (3 * slack) =
      (rw (s.burst, s.one) at ih) in
    let waited =
      waits l.burst r start now (lookup k l.entries) h.0
        (λ b e. (SoundEntries-lookup l.burst start k b l.entries sound e).1) in
    let split =
      mul_split r (now - start) (stop - now) (stop - start)
        (let le = Rises-le now stop calls h.1 in omega (arith, h.0, le)) in
    let total = counted l.float.one (granted k calls after.0) (key =s k) after.1 in
    let more = errors slack (asks k calls) (key =s k) in
    let spent = s.spent in rw (total, more) (omega (arith, ih', waited, split, spent))
