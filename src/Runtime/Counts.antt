-- ===== src/Runtime/Counts.antt =====
-- internal/expert/runtime/server.go: the counters of `/metrics` against the tasks.
use cova.Base.{
  ℕ, suc, ◌+◌, ◌^◌, ◌≤◌, ◌<◌, String, ◌≡◌, refl, ◌∙◌, subst, Bool-cases, List, [], ◌∷◌, inl, inr,
  length, arith, is_blank, zero,
}
use cova.Runtime.{
  Server, ServerOption, with_auth_token, with_auth_disabled, with_default_async,
  with_default_timeout, apply_option, apply_options, FirstExpert, new_server,
}
use cova.Runtime.Tasks.{System, Action, step, run, boot}
use cova.Runtime.Balance.{Balanced, step-Balanced}

run-Balanced :
    (date_of : String → String) (n : ℕ) (actions : List Action) (y : System)
    → Balanced n y
    → n + length actions < 2 ^ 64
    → Balanced (n + length actions) (run date_of actions y)
unfolding run
run-Balanced date_of n [] y b room = subst (λ k. Balanced k y) (omega arith) b
run-Balanced date_of n (a ∷ actions) y b room =
    let ih =
      run-Balanced date_of (n + 1) actions (step date_of a y)
        (step-Balanced n (omega (arith, room)) y b date_of a) (omega (arith, room)) in
    subst (λ k. Balanced k (run date_of actions (step date_of a y))) (omega arith) ih

option-Idle :
    (o : ServerOption) (s : Server)
    → ((apply_option o s).metrics ≡ s.metrics) × ((apply_option o s).pending ≡ s.pending)
unfolding apply_option
option-Idle (with_auth_token raw) s = elim (Bool-cases (is_blank raw)) [
  | inl e ↦ rw e (refl, refl)
  | inr e ↦ rw e (refl, refl)
]
option-Idle with_auth_disabled s = (refl, refl)
option-Idle (with_default_async v) s = (refl, refl)
option-Idle (with_default_timeout zero) s = (refl, refl)
option-Idle (with_default_timeout (suc v)) s = (refl, refl)

options-Idle :
    (options : List ServerOption) (s : Server)
    → ((apply_options options s).metrics ≡ s.metrics)
      × ((apply_options options s).pending ≡ s.pending)
unfolding apply_options
options-Idle [] s = (refl, refl)
options-Idle (o ∷ options) s =
    let one = option-Idle o s in
    let more = options-Idle options (apply_option o s) in (more.0 ∙ one.0, more.1 ∙ one.1)

pub new_server-Idle :
    (experts : List FirstExpert) (options : List ServerOption)
    → ((new_server experts options).metrics
        ≡ record { total = 0; succeeded = 0; accepted = 0; canceled = 0; failed = 0 })
      × ((new_server experts options).pending ≡ [])
unfolding new_server
new_server-Idle experts options = options-Idle options _

boot-Balanced :
    (s : Server)
    → s.metrics ≡ record { total = 0; succeeded = 0; accepted = 0; canceled = 0; failed = 0 }
    → s.pending ≡ []
    → Balanced 0 (boot s)
unfolding boot
boot-Balanced s none_counted none_held = record {
  total = rw none_counted refl;
  known = rw none_counted (omega arith);
  held = rw (none_counted, none_held) (omega arith);
  most = rw none_counted (omega arith);
  reported = rw none_counted (omega arith);
}

-- After fewer than 2 ^ 64 creations, cancels and ends of tasks in any order, a new runtime has counted
-- each task as succeeded or failed, or it still runs; the tasks canceled and those pending are together
-- at most the accepted ones; and no more events were handed to the sink than tasks succeeded.
pub counters_add_up :
    (date_of : String → String) (experts : List FirstExpert) (options : List ServerOption)
    (actions : List Action)
    → length actions < 2 ^ 64
    → ((run date_of actions (boot (new_server experts options))).server.metrics.total
        ≡ (run date_of actions (boot (new_server experts options))).server.metrics.succeeded
          + (run date_of actions (boot (new_server experts options))).server.metrics.failed
          + length (run date_of actions (boot (new_server experts options))).running)
      × ((run date_of actions (boot (new_server experts options))).server.metrics.canceled
            + length (run date_of actions (boot (new_server experts options))).server.pending
          ≤ (run date_of actions (boot (new_server experts options))).server.metrics.accepted)
      × (length (run date_of actions (boot (new_server experts options))).sent
          ≤ (run date_of actions (boot (new_server experts options))).server.metrics.succeeded)
counters_add_up date_of experts options actions room =
    let idle = new_server-Idle experts options in
    let b =
      run-Balanced date_of 0 actions _ (boot-Balanced (new_server experts options) idle.0 idle.1)
        (omega (arith, room)) in
    (b.total, b.held, b.reported)
