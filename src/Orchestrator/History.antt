-- ===== src/Orchestrator/History.antt =====
-- internal/orchestrator/server.go: a server that is stopped and started again, any number of times,
-- from what it has saved last.
use cova.Base.{
  ℕ, ◌+◌, ◌^◌, ◌<◌, ◌≤◌, String, ◌≡◌, refl, ◌∙◌, ◌⊎◌, inl, inr, Option, none, List, [], ◌∷◌, length,
  All, arith, map_values,
}
use cova.Api.{SubmitBriefRequest}
use cova.Jobstore
use cova.Jobstore.{empty_state}
use cova.Orchestrator.Types.{ExpertMetadata, Server}
use cova.Orchestrator.Persist.{
  snapshot, persist_locked, enqueue, enqueue_all, resume, load_state, pending,
}
use cova.Orchestrator.Start.{Setting, bare_server, new_server, defaults, apply_settings}
use cova.Orchestrator.System.{System, Action, step, run}
use cova.Orchestrator.Consistent.{IsConsistent, Moves-IsConsistent}
use cova.Orchestrator.Refine.Machine.{step-Moves}
use cova.Orchestrator.Recovery.{load-save}
use cova.Orchestrator.Restart.{restart-IsConsistent, new_server-IsConsistent}
use cova.Orchestrator.Durable.{
  latest, IsSaved, run-IsSaved, enqueue-IsSaved, persist_locked-IsSaved,
}

-- One life of a server: how it is started, and what is done to it until it stops.
pub record Life : Type 0 where
  pub experts : List ExpertMetadata
  pub settings : List Setting
  pub actions : List Action

unfoldable pub started : Life → Jobstore.State → System
started l state = record { server = new_server l.experts l.settings state; busy = none }

-- The actions of all the lives.
unfoldable pub total : List Life → ℕ
total [] = 0
total (l ∷ lives) = length l.actions + total lives

module _ (hash_request : SubmitBriefRequest → Option String) where
  -- What the store holds when the server stops.
  unfoldable pub stored_after : Life → Jobstore.State → Jobstore.State
  unfolding started latest
  stored_after l state = latest state (run hash_request (started l state) l.actions).server.saves

  unfoldable pub stored : List Life → Jobstore.State → Jobstore.State
  unfolding stored_after
  stored [] state = state
  stored (l ∷ lives) state = stored lives (stored_after l state)

-- The state was saved by a consistent server that has given out at most `n` numbers and has `Q`.
pub record Sound (Q : Server → Type 0) (n : ℕ) (state : Jobstore.State) : Type 0 where
  pub server : Server
  pub consistent : IsConsistent server
  pub counted : server.next_id ≤ n
  pub holds : Q server
  pub saved : state ≡ snapshot server

empty-Sound : Sound (λ s. Unit) 0 empty_state
unfolding new_server load_state empty_state resume pending map_values bare_server snapshot
empty-Sound = record {
  server = new_server [] [] empty_state;
  consistent = new_server-IsConsistent [] [];
  counted = omega arith;
  holds = tt;
  saved = refl;
}

enqueue_all-IsSaved :
    (first : Jobstore.State) (ids : List String) (s : Server)
    → IsSaved first s
    → IsSaved first (enqueue_all ids s)
unfolding enqueue_all
enqueue_all-IsSaved first [] s h = h
enqueue_all-IsSaved first (id ∷ ids) s h =
    enqueue_all-IsSaved first ids (enqueue id s) (enqueue-IsSaved first id s h)

-- A server that starts saves at once, or has not saved.
resume-IsSaved :
    (ids : List String) (s : Server)
    → s.saves ≡ []
    → IsSaved (snapshot (resume ids s)) (resume ids s)
unfolding resume IsSaved latest
resume-IsSaved [] s e = rw e refl
resume-IsSaved (id ∷ ids) s e =
    unfold IsSaved latest in
    enqueue_all-IsSaved _ (id ∷ ids) (persist_locked s) (persist_locked-IsSaved _ s)

new_server-IsSaved :
    (experts : List ExpertMetadata) (opts : List Setting) (state : Jobstore.State)
    → let s = new_server experts opts state in IsSaved (snapshot s) s
unfolding new_server load_state bare_server
new_server-IsSaved experts opts state = resume-IsSaved _ _ refl

module _ (hash_request : SubmitBriefRequest → Option String) where
  run_counts :
      (y : System) (acts : List Action)
      → y.server.next_id + length acts < 2 ^ 64
      → IsConsistent y.server
      → IsConsistent (run hash_request y acts).server
        × ((run hash_request y acts).server.next_id ≤ y.server.next_id + length acts)
  unfolding run
  run_counts y [] room v = (v, omega arith)
  run_counts y (a ∷ acts) room v =
      let (w, n) = Moves-IsConsistent (step-Moves hash_request y a) (omega arith) v in
      let (u, m) = run_counts (step hash_request y a) acts (omega arith) w in (u, omega arith)

  -- What the store holds is what it held, or what the server knows.
  latest_cases :
      (first state : Jobstore.State) (saves : List Jobstore.State)
      → (latest state saves ≡ state) ⊎ (latest state saves ≡ latest first saves)
  unfolding latest
  latest_cases first state [] = inl refl
  latest_cases first state (x ∷ saves) = inr refl

  -- What holds of a server stays through a restart and through a run of allowed actions.
  module _ (Q : Server → Type 0) (Ok : Action → Type 0)
      (restarts : (s : Server) (experts : List ExpertMetadata) (opts : List Setting)
        → IsConsistent s
        → Q s
        → Q (new_server experts opts (snapshot s)))
      (runs : (y : System) (acts : List Action)
        → y.server.next_id + length acts < 2 ^ 64
        → IsConsistent y.server
        → Q y.server
        → All Ok acts
        → Q (run hash_request y acts).server) where
    started_holds :
        (n : ℕ) (l : Life) (state : Jobstore.State)
        → Sound Q n state
        → IsConsistent (started l state).server
          × ((started l state).server.next_id ≤ n)
          × Q (started l state).server
    unfolding started new_server
    started_holds n l state g =
        let r =
          load-save g.server (bare_server l.experts (apply_settings defaults l.settings))
            g.consistent in
        rw g.saved (
          restart-IsConsistent g.server l.experts l.settings g.consistent,
          omega (arith, r.next_id, g.counted),
          restarts g.server l.experts l.settings g.consistent g.holds,
        )

    stored_after-Sound :
        (n : ℕ) (l : Life) (state : Jobstore.State)
        → n + length l.actions < 2 ^ 64
        → Sound Q n state
        → All Ok l.actions
        → Sound Q (n + length l.actions) (stored_after hash_request l state)
    unfolding stored_after started
    stored_after-Sound n l state room g ok =
        let (v, le, q) = started_holds n l state g in
        let s = new_server l.experts l.settings state in
        let y = run hash_request (started l state) l.actions in
        let (w, bound) = run_counts (started l state) l.actions (omega arith) v in
        let know =
          run-IsSaved (snapshot s) hash_request (started l state) l.actions
            (new_server-IsSaved l.experts l.settings state) in
        elim (latest_cases (snapshot s) state y.server.saves) [
          | inl e ↦ record {
            server = g.server;
            consistent = g.consistent;
            counted = omega (arith, g.counted);
            holds = g.holds;
            saved = e ∙ g.saved;
          }
          | inr e ↦ record {
            server = y.server;
            consistent = w;
            counted = omega (arith, bound, le);
            holds = runs (started l state) l.actions (omega arith) v q ok;
            saved = e ∙ (unfold IsSaved in know);
          }
        ]

    stored-Sound :
        (lives : List Life) (n : ℕ) (state : Jobstore.State)
        → n + total lives < 2 ^ 64
        → Sound Q n state
        → All (λ l. All Ok l.actions) lives
        → Sound Q (n + total lives) (stored hash_request lives state)
    unfolding stored total
    stored-Sound [] n state room g ok = record {
      server = g.server;
      consistent = g.consistent;
      counted = omega (arith, g.counted);
      holds = g.holds;
      saved = g.saved;
    }
    stored-Sound (l ∷ lives) n state room g ok =
        let h =
          stored-Sound lives (n + length l.actions) (stored_after hash_request l state)
            (omega arith) (stored_after-Sound n l state (omega arith) g ok.0) ok.1 in
        record {
          server = h.server;
          consistent = h.consistent;
          counted = omega (arith, h.counted);
          holds = h.holds;
          saved = h.saved;
        }

    -- A server in its last life.
    pub history_holds :
        (lives : List Life) (l : Life) (n : ℕ) (state : Jobstore.State)
        → n + total lives + length l.actions < 2 ^ 64
        → Sound Q n state
        → All (λ k. All Ok k.actions) lives
        → All Ok l.actions
        → IsConsistent
            (run hash_request (started l (stored hash_request lives state)) l.actions).server
          × Q (run hash_request (started l (stored hash_request lives state)) l.actions).server
    history_holds lives l n state room g ok last =
        let y = started l (stored hash_request lives state) in
        let (v, bound, q) =
          started_holds (n + total lives) l (stored hash_request lives state)
            (stored-Sound lives n state (omega arith) g ok) in
        ((run_counts y l.actions (omega arith) v).0, runs y l.actions (omega arith) v q last)

  allowed : (acts : List Action) → All (λ a. Unit {0}) acts
  allowed [] = tt
  allowed (a ∷ acts) = (tt, allowed acts)

  all_allowed : (lives : List Life) → All (λ l. All (λ a. Unit {0}) l.actions) lives
  all_allowed [] = tt
  all_allowed (l ∷ lives) = (allowed l.actions, all_allowed lives)

  -- A server that starts with an empty store and is stopped between any two actions and started again
  -- from what it has saved last, any number of times and each time with any experts and settings, is
  -- consistent after any actions, if fewer than 2 ^ 64 actions are taken in all.
  pub history-IsConsistent :
      (lives : List Life) (l : Life)
      → total lives + length l.actions < 2 ^ 64
      → IsConsistent
          (run hash_request (started l (stored hash_request lives empty_state)) l.actions).server
  history-IsConsistent lives l room =
      (history_holds (λ s. Unit) (λ a. Unit) (λ s e o v q. tt) (λ y acts r v q ok. tt) lives l 0
        empty_state (omega arith) empty-Sound (all_allowed lives) (allowed l.actions)).0
