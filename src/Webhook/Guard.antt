-- ===== src/Webhook/Guard.antt =====
-- internal/delivery/webhook/verify.go: `InMemoryReplayGuard`, the event ids seen with the times at
-- which they are forgotten.
use cova.Base.{
  ℕ, zero, suc, ◌+◌, ◌*◌, String, Bool, true, false, Option, none, some, [], ◌∷◌, Dict, lookup,
  insert, ltb, if◌then◌else◌,
}

-- The loop that deletes what is past its time.
unfoldable pub sweep : ℕ → Dict ℕ → Dict ℕ
sweep now [] = []
sweep now ((id, expire_at) ∷ seen) =
    let rest = sweep now seen in if ltb now expire_at then (id, expire_at) ∷ rest else rest

abbrev pub default_replay_ttl : ℕ
default_replay_ttl = 15 * 60 * 1000000000

unfoldable pub mark : String → ℕ → ℕ → Dict ℕ → Option ℕ → Dict ℕ × Bool
mark event_id now ttl seen none = (insert event_id (now + ttl) seen, false)
mark event_id now ttl seen (some expire_at) =
    if ltb now expire_at then (seen, true) else (insert event_id (now + ttl) seen, false)

unfoldable pub given_ttl : ℕ → ℕ
given_ttl zero = default_replay_ttl
given_ttl (suc ttl) = suc ttl

-- `CheckAndMark`: whether the id was seen, and the ids with it.
unfoldable pub check_and_mark : String → ℕ → ℕ → Dict ℕ → Dict ℕ × Bool
unfolding mark given_ttl sweep
check_and_mark event_id now ttl seen =
    let live = sweep now seen in mark event_id now (given_ttl ttl) live (lookup event_id live)
