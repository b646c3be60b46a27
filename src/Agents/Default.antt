-- ===== src/Agents/Default.antt =====
-- The agent that `findDefaultAgent`, internal/routing/router.go, chooses.
use cova.Base.{
  ℕ, ◌≤◌, ◌≡◌, Bool, true, false, ◌&&◌, none, some, List, [], ◌∷◌, All, if◌then◌else◌, inl, inr,
  Bool-cases, Option-cases, arith,
}
use cova.Agents.Pool.{State}
use cova.Agents.Router.{first, is_manager, shows_online, or_else, default_state}

-- How much an agent is preferred: an online manager, another agent online, a manager, any other.
unfoldable pub rank : State → ℕ
rank s = if shows_online s then (if is_manager s then 3 else 2) else if is_manager s then 1 else 0

rank_bound : (t : State) → rank t ≤ 3
unfolding rank
rank_bound t = ground arith

rank_others : (t : State) → (is_manager t && shows_online t) ≡ false → rank t ≤ 2
unfolding rank
rank_others t e = ground arith

rank_offline : (t : State) → shows_online t ≡ false → rank t ≤ 1
unfolding rank
rank_offline t e = ground arith

rank_rest : (t : State) → shows_online t ≡ false → is_manager t ≡ false → rank t ≡ 0
unfolding rank
rank_rest t e f = ground arith

rank_manager : (s : State) → (is_manager s && shows_online s) ≡ true → rank s ≡ 3
unfolding rank
rank_manager s e = ground arith

rank_online : (s : State) → shows_online s ≡ true → 2 ≤ rank s
unfolding rank
rank_online s e = ground arith

rank_managing : (s : State) → is_manager s ≡ true → 1 ≤ rank s
unfolding rank
rank_managing s e = ground arith

first-passes :
    (test : State → Bool) (agents : List State) (s : State)
    → first test agents ≡ some s
    → test s ≡ true
unfolding first
first-passes test [] s e = cc e
first-passes test (t ∷ agents) s e = elim (Bool-cases (test t)) [
  | inl passed ↦ let f = rw passed at e in let same : t ≡ s = cc f in rw (← same) passed
  | inr failed ↦ first-passes test agents s (rw failed at e)
]

first-fails :
    (test : State → Bool) (agents : List State)
    → first test agents ≡ none
    → All (λ t. test t ≡ false) agents
unfolding first
first-fails test [] e = tt
first-fails test (t ∷ agents) e = elim (Bool-cases (test t)) [
  | inl passed ↦ absurd (let f = rw passed at e in cc f)
  | inr failed ↦ (failed, first-fails test agents (rw failed at e))
]

All-imp :
    (P Q : State → Type 0) (agents : List State)
    → ((t : State) → P t → Q t)
    → All P agents
    → All Q agents
All-imp P Q [] f h = tt
All-imp P Q (t ∷ agents) f h = (f t h.0, All-imp P Q agents f h.1)

every : (P : State → Type 0) (agents : List State) → ((t : State) → P t) → All P agents
every P [] f = tt
every P (t ∷ agents) f = (f t, every P agents f)

All-both :
    (R : State → Type 0) (agents : List State)
    → ((t : State) → shows_online t ≡ false → is_manager t ≡ false → R t)
    → All (λ t. shows_online t ≡ false) agents
    → All (λ t. is_manager t ≡ false) agents
    → All R agents
All-both R [] f h k = tt
All-both R (t ∷ agents) f h k = (f t h.0 k.0, All-both R agents f h.1 k.1)

-- No agent is preferred to the default agent: an online PM ranks above other agents online, these
-- above a PM, and a PM above the rest. So an agent online is taken before a PM that is offline.
pub default_state_best :
    (agents : List State) (s : State)
    → default_state agents ≡ some s
    → All (λ t. rank t ≤ rank s) agents
unfolding default_state or_else
default_state_best agents s e =
    elim (Option-cases (first (λ t. is_manager t && shows_online t) agents)) [
      | inr (a, f) ↦
          let chosen : a ≡ s = (let e' = rw f at e in cc) in
          let top : rank s ≡ 3 = rw (← chosen) (rank_manager a (first-passes _ agents a f)) in
          every (λ t. rank t ≤ rank s) agents (λ t. omega (arith, rank_bound t, top))
      | inl f ↦ elim (Option-cases (first shows_online agents)) [
        | inr (a, g) ↦
            let chosen : a ≡ s = (let e' = rw (f, g) at e in cc) in
            let high : 2 ≤ rank s = rw (← chosen) (rank_online a (first-passes _ agents a g)) in
            All-imp (λ t. (is_manager t && shows_online t) ≡ false) (λ t. rank t ≤ rank s) agents
              (λ t n. omega (arith, rank_others t n, high)) (first-fails _ agents f)
        | inl g ↦ elim (Option-cases (first is_manager agents)) [
          | inr (a, h) ↦
              let chosen : a ≡ s = (let e' = rw (f, g, h) at e in cc) in
              let some_rank : 1 ≤ rank s =
                rw (← chosen) (rank_managing a (first-passes _ agents a h)) in
              All-imp (λ t. shows_online t ≡ false) (λ t. rank t ≤ rank s) agents
                (λ t n. omega (arith, rank_offline t n, some_rank)) (first-fails _ agents g)
          | inl h ↦
              All-both (λ t. rank t ≤ rank s) agents (λ t n m. omega (arith, rank_rest t n m))
                (first-fails _ agents g) (first-fails _ agents h)
        ]
      ]
    ]
