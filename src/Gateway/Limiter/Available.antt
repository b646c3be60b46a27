-- ===== src/Gateway/Limiter/Available.antt =====
-- internal/api/gateway/middleware.go: the units that a bucket of `ipLimiter` has to spend.
use cova.Base.{
  ℕ, ◌+◌, ◌-◌, ◌*◌, ◌≤◌, ◌<◌, String, subst, ◌≡◌, Option, none, some, [], ◌∷◌, Dict, All, lookup,
  insert, ltb, inl, inr, Bool-cases, ◌=s◌, arith, subst,
}
use cova.Gateway.Limiter.{Bucket, ttl, evict, at_most}

pub mul_split : (r a b c : ℕ) → a + b ≡ c → c * r ≡ a * r + b * r
mul_split r a b c h = rw (← h) (omega arith)

pub mul_le : (r a b : ℕ) → a ≤ b → a * r ≤ b * r
mul_le r a b h = let split = mul_split r a (b - a) b (omega arith) in omega (arith, split)

-- The units that a key can spend at a time: all it may have if it has no bucket.
unfoldable pub available : ℕ → ℕ → ℕ → Option Bucket → ℕ
unfolding at_most
available cap rate now none = cap
available cap rate now (some b) = at_most cap (b.tokens + (now - b.last) * rate)

pub available_cap : (cap rate now : ℕ) (o : Option Bucket) → available cap rate now o ≤ cap
unfolding available at_most
available_cap cap rate now none = omega arith
available_cap cap rate now (some b) = ground arith

-- A bucket at a time: within the cap, and not from the future.
abbrev pub Sound : ℕ → ℕ → Bucket → Type 0
Sound cap now b = (b.tokens ≤ cap) × (b.last ≤ now)

abbrev pub SoundEntries : ℕ → ℕ → Dict Bucket → Type 0
SoundEntries cap now entries = All (λ e. Sound cap now e.1) entries

pub available_later :
    (cap rate now later : ℕ) (b : Bucket)
    → now ≤ later
    → b.last ≤ now
    → available cap rate later (some b) ≤ available cap rate now (some b) + (later - now) * rate
unfolding available at_most
available_later cap rate now later b h past =
    let split = mul_split rate (now - b.last) (later - now) (later - b.last) (omega arith) in
    ground (arith, split)

idle_full :
    (cap rate now : ℕ) (b : Bucket)
    → cap ≤ ttl * rate
    → ttl < now - b.last
    → available cap rate now (some b) ≡ cap
unfolding available at_most
idle_full cap rate now b h idle =
    let much = mul_le rate ttl (now - b.last) (omega arith) in ground (arith, much)

-- What eviction forgets was full, where the cap fills within the time to live.
pub available-evict :
    (cap rate now : ℕ) (k : String) (entries : Dict Bucket)
    → cap ≤ ttl * rate
    → available cap rate now (lookup k (evict now entries))
      ≤ available cap rate now (lookup k entries)
unfolding evict lookup
available-evict cap rate now k [] h = omega arith
available-evict cap rate now k ((j, b) ∷ entries) h =
    let ih = available-evict cap rate now k entries h in
    elim (Bool-cases (ltb ttl (now - b.last))) [
      | inl idle ↦ elim (Bool-cases (j =s k)) [
        | inl same ↦
            rw (idle, same, idle_full cap rate now b h (ground arith))
              (available_cap cap rate now (lookup k (evict now entries)))
        | inr other ↦ rw (idle, other) ih
      ]
      | inr fresh ↦ elim (Bool-cases (j =s k)) [
        | inl same ↦ rw (fresh, same) (omega arith)
        | inr other ↦ rw (fresh, other) ih
      ]
    ]

pub SoundEntries-evict :
    (cap now : ℕ) (entries : Dict Bucket)
    → SoundEntries cap now entries
    → SoundEntries cap now (evict now entries)
unfolding evict
SoundEntries-evict cap now [] h = tt
SoundEntries-evict cap now ((j, b) ∷ entries) h = elim (Bool-cases (ltb ttl (now - b.last))) [
  | inl idle ↦ rw idle (SoundEntries-evict cap now entries h.1)
  | inr fresh ↦ rw fresh (h.0, SoundEntries-evict cap now entries h.1)
]

pub SoundEntries-insert :
    (cap now : ℕ) (k : String) (b : Bucket) (entries : Dict Bucket)
    → Sound cap now b
    → SoundEntries cap now entries
    → SoundEntries cap now (insert k b entries)
unfolding insert
SoundEntries-insert cap now k b [] p h = (p, tt)
SoundEntries-insert cap now k b ((j, c) ∷ entries) p h = elim (Bool-cases (j =s k)) [
  | inl same ↦ rw same (p, h.1)
  | inr other ↦ rw other (h.0, SoundEntries-insert cap now k b entries p h.1)
]

pub SoundEntries-later :
    (cap now later : ℕ) (entries : Dict Bucket)
    → now ≤ later
    → SoundEntries cap now entries
    → SoundEntries cap later entries
SoundEntries-later cap now later [] le h = tt
SoundEntries-later cap now later ((j, b) ∷ entries) le h =
    ((h.0.0, omega (arith, h.0.1)), SoundEntries-later cap now later entries le h.1)

pub SoundEntries-lookup :
    (cap now : ℕ) (k : String) (b : Bucket) (entries : Dict Bucket)
    → SoundEntries cap now entries
    → lookup k entries ≡ some b
    → Sound cap now b
unfolding lookup
SoundEntries-lookup cap now k b [] h e = cc e
SoundEntries-lookup cap now k b ((j, c) ∷ entries) h e = elim (Bool-cases (j =s k)) [
  | inl same ↦
      let found = rw same at e in let is_it : c ≡ b = cc found in subst (Sound cap now) is_it h.0
  | inr other ↦ SoundEntries-lookup cap now k b entries h.1 (rw other at e)
]
