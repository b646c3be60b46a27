-- ===== src/Orchestrator/Settled.antt =====
-- A canceled job of internal/orchestrator/server.go, when the server is stopped and started again.
use cova.Base.{
  ◌+◌, ◌^◌, ◌<◌, String, ◌≡◌, ◌≢◌, refl, ap, ◌∙◌, Option, some, List, All, length, lookup,
  map_option, arith,
}
use cova.Api.{SubmitBriefRequest, canceled}
use cova.Orchestrator.Types.{ExpertMetadata, Job, Server}
use cova.Orchestrator.Persist.{snapshot, requeued}
use cova.Orchestrator.Start.{Setting, bare_server, new_server, defaults, apply_settings}
use cova.Orchestrator.System.{System, Action, run}
use cova.Orchestrator.Change.{replayer}
use cova.Orchestrator.Refine.Machine.{actor}
use cova.Orchestrator.Consistent.{IsConsistent}
use cova.Orchestrator.Recovery.{load-save}
use cova.Orchestrator.Life.{Kept, run_keeps_canceled}
use cova.Orchestrator.History.{Life, started, total, stored, history_holds}

-- The job is there, canceled, and about the same thing.
abbrev pub Canceled : String → Job → Server → Type 0
Canceled id j s = Kept id j (λ b. b ≡ canceled) s.jobs

requeued_canceled : (j : Job) → j.status ≡ canceled → requeued j ≡ j
unfolding requeued
requeued_canceled j c = rw c refl

restart_keeps_canceled :
    (id : String) (j : Job) (s : Server) (experts : List ExpertMetadata) (opts : List Setting)
    → IsConsistent s
    → Canceled id j s
    → Canceled id j (new_server experts opts (snapshot s))
unfolding new_server
restart_keeps_canceled id j s experts opts v k =
    let r = load-save s (bare_server experts (apply_settings defaults opts)) v in
    record {
      now = k.now;
      found =
          r.jobs id
          ∙ (ap (map_option requeued) k.found
              ∙ ap (λ i. some i) (requeued_canceled k.now k.status));
      about = k.about;
      status = k.status;
    }

-- What is kept of a job that was kept before.
run_keeps :
    (hash_request : SubmitBriefRequest → Option String) (id : String) (j : Job) (y : System)
    (acts : List Action)
    → y.server.next_id + length acts < 2 ^ 64
    → IsConsistent y.server
    → Canceled id j y.server
    → All (λ a. actor a ≢ replayer) acts
    → Canceled id j (run hash_request y acts).server
run_keeps hash_request id j y acts room v k ok =
    let later = run_keeps_canceled hash_request y acts id k.now room v k.found k.status ok in
    record {
      now = later.now;
      found = later.found;
      about = later.about ∙ k.about;
      status = later.status;
    }

module _ (hash_request : SubmitBriefRequest → Option String) where
  -- A job that is canceled when a consistent server saves its state is there, canceled and about the
  -- same thing, after the server has been stopped between any two actions and started again from what
  -- it has saved last, any number of times and each time with any experts and settings, if no action
  -- is a replay and the 64-bit counter has room for all of them.
  pub history_keeps_canceled :
      (s : Server) (id : String) (j : Job) (lives : List Life) (l : Life)
      → IsConsistent s
      → lookup id s.jobs ≡ some j
      → j.status ≡ canceled
      → s.next_id + total lives + length l.actions < 2 ^ 64
      → All (λ k. All (λ a. actor a ≢ replayer) k.actions) lives
      → All (λ a. actor a ≢ replayer) l.actions
      → Canceled id j
          (run hash_request (started l (stored hash_request lives (snapshot s))) l.actions).server
  history_keeps_canceled s id j lives l v found c room ok last =
      (history_holds hash_request (Canceled id j) (λ a. actor a ≢ replayer)
        (λ t e o w k. restart_keeps_canceled id j t e o w k) (run_keeps hash_request id j) lives l
        s.next_id (snapshot s) room
        (record {
          server = s;
          consistent = v;
          counted = omega arith;
          holds = record { now = j; found = found; about = refl; status = c };
          saved = refl;
        })
        ok last).1
