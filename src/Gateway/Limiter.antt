-- ===== src/Gateway/Limiter.antt =====
-- internal/api/gateway/middleware.go: `clientKey` and `ipLimiter`. The code's tokens are float64: a number
-- of at least 0 is counted here in units that all of them are multiples of, and what the processor
-- makes of a sum, a difference and a product is a parameter, `Float64`. A bucket's `last` and
-- `lastSeen` are always set together, and are one field.
mod Available
pub mod Bound
pub mod Window
use cova.Base.{
  ℕ, ◌+◌, ◌-◌, ◌*◌, ◌%◌, ◌^◌, String, Bool, true, false, Option, none, some, List, [], ◌∷◌, Dict,
  lookup, insert, ltb, leb, ◌==◌, if◌then◌else◌, is_empty, trim_space,
}
use cova.Base.Bytes.{split}
use cova.Http.{Request, header}

-- float64 in units: the number 1, the float64 that stands for an exact result, and the float64 that
-- `elapsed.Seconds() * rate` is for a rate and a time in nanoseconds.
pub record Float64 : Type 0 where
  pub one : ℕ
  pub round : ℕ → ℕ
  pub times : ℕ → ℕ → ℕ

pub record Bucket : Type 0 where
  pub tokens : ℕ
  pub last : ℕ

pub record Limiter : Type 0 where
  pub float : Float64
  pub rate : ℕ
  pub burst : ℕ
  pub entries : Dict Bucket
  pub requests : ℕ

unfoldable pub new_limiter : Float64 → ℕ → ℕ → Limiter
new_limiter float rate burst = record {
  float = float;
  rate = rate;
  burst = float.round (burst * float.one);
  entries = [];
  requests = 0;
}

abbrev pub ttl : ℕ
ttl = 10 * 60 * 1000000000

-- The loop of `cleanupIfNeeded`.
unfoldable pub evict : ℕ → Dict Bucket → Dict Bucket
evict now [] = []
evict now ((key, b) ∷ entries) =
    let rest = evict now entries in if ltb ttl (now - b.last) then rest else (key, b) ∷ rest

unfoldable pub cleanup_if_needed : ℕ → Limiter → Limiter
unfolding evict
cleanup_if_needed now l =
    let requests = (l.requests + 1) % 2 ^ 64 in
    if requests % 100 == 0
    then record l { requests = requests; entries = evict now l.entries }
    else record l { requests = requests }

-- `if b.tokens > l.burst { b.tokens = l.burst }`
unfoldable pub at_most : ℕ → ℕ → ℕ
at_most limit n = if ltb limit n then limit else n

unfoldable pub refilled : Limiter → ℕ → Bucket → ℕ
unfolding at_most
refilled l now b =
    if ltb b.last now
    then at_most l.burst (l.float.round (b.tokens + l.float.times l.rate (now - b.last)))
    else b.tokens

unfoldable pub spend : String → ℕ → ℕ → Limiter → Limiter × Bool
spend key now tokens l =
    if leb l.float.one tokens
    then (
      record l {
        entries =
            insert key (record { tokens = l.float.round (tokens - l.float.one); last = now })
              l.entries;
      },
      true,
    )
    else (
      record l { entries = insert key (record { tokens = tokens; last = now }) l.entries },
      false,
    )

-- A key that is new has a full bucket.
unfoldable pub allow_held : String → ℕ → Limiter → Option Bucket → Limiter × Bool
unfolding spend refilled
allow_held key now l none = (
  record l {
    entries =
        insert key (record { tokens = l.float.round (l.burst - l.float.one); last = now })
          l.entries;
  },
  true,
)
allow_held key now l (some b) = spend key now (refilled l now b) l

unfoldable pub cleaned : ℕ → Limiter × Bool → Limiter × Bool
unfolding cleanup_if_needed
cleaned now (l, allowed) = (cleanup_if_needed now l, allowed)

unfoldable pub allow : String → ℕ → Limiter → Limiter × Bool
unfolding allow_held cleaned
allow key now l = cleaned now (allow_held key now l (lookup key l.entries))

unfoldable pub first_part : List String → String
first_part [] = ""
first_part (x ∷ xs) = trim_space x

unfoldable pub host_or_addr : Option String → String → String
host_or_addr none addr = addr
host_or_addr (some host) addr = if is_empty host then addr else host

-- `clientKey`; `split_host` is the host that `net.SplitHostPort` finds, if it does.
unfoldable pub client_key : (String → Option String) → Request → String
unfolding first_part host_or_addr
client_key split_host r =
    let forwarded = first_part (split 44 (trim_space (header "X-Forwarded-For" r))) in
    let addr = trim_space r.remote_addr in
    if is_empty forwarded then host_or_addr (split_host addr) addr else forwarded
