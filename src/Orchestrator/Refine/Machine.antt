-- ===== src/Orchestrator/Refine/Machine.antt =====
-- The whole server of internal/orchestrator/server.go refines the abstract machine of `Change`.
use cova.Base.{ℕ, String, ◌≡◌, refl, Option, none, some}
use cova.Api.{SubmitBriefRequest}
use cova.Orchestrator.Queue.{MemoryQueue}
use cova.Orchestrator.Types.{Server}
use cova.Orchestrator.Worker.{BriefInput, Outcome}
use cova.Orchestrator.System.{
  System, Action, submits, asks_status, asks_result, cancels, replays, reports, takes, finishes,
  busy_with, take, take_next, finish, step,
}
use cova.Orchestrator.Change.{
  Actor, caller, replayer, worker, Change, same, after, Change-refl, Moves, changes,
}
use cova.Orchestrator.Refine.Control.{
  get_job_status-Change, get_job_result-Change, cancel_job-Change, replay_job-Change,
}
use cova.Orchestrator.Refine.Worker.{process_start-Change, process_finish-Change}
use cova.Orchestrator.Refine.Events.{handle_event-Change}
use cova.Orchestrator.Refine.Submit.{submit_brief_job-Moves}

busy_with_server : (id : String) (r : Server × Option BriefInput) → (busy_with id r).server ≡ r.0
busy_with_server id (s, none) = refl
busy_with_server id (s, some input) = refl

take-Change :
    (now later : ℕ) (s : Server) (o : Option (String × MemoryQueue))
    → Change worker s (take now later s o).server
unfolding take
take-Change now later s none = Change-refl s
take-Change now later s (some (id, q)) = rw busy_with_server (
    after (same refl refl (record { idem = refl; next_id = refl; max_attempts = refl }))
      (process_start-Change now later id (record s { queue = q })))

take_next-Change :
    (now later : ℕ) (y : System) (o : Option String)
    → Change worker y.server (take_next now later y o).server
unfolding take_next
take_next-Change now later y none = take-Change now later y.server _
take_next-Change now later y (some id) = Change-refl y.server

finish-Change :
    (outcome : Outcome) (now later : ℕ) (y : System) (o : Option String)
    → Change worker y.server (finish outcome now later y o).server
unfolding finish
finish-Change outcome now later y none = Change-refl y.server
finish-Change outcome now later y (some id) = process_finish-Change outcome now later id y.server

-- Who takes the action.
abbrev pub actor : Action → Actor
actor (replays stamp now later p) = replayer
actor (takes now later) = worker
actor (finishes outcome now later) = worker
actor _ = caller

module _ (hash_request : SubmitBriefRequest → Option String) where
  -- Every action, the worker's included, is a move of the abstract machine.
  pub step-Moves :
      (y : System) (a : Action) → Moves (actor a) y.server (step hash_request y a).server
  unfolding step
  step-Moves y (submits stamp now p req) =
      submit_brief_job-Moves hash_request stamp now p req y.server
  step-Moves y (asks_status stamp now p) = changes (get_job_status-Change stamp now p y.server)
  step-Moves y (asks_result stamp now p) = changes (get_job_result-Change stamp now p y.server)
  step-Moves y (cancels stamp now later p) = changes (cancel_job-Change stamp now later p y.server)
  step-Moves y (replays stamp now later p) = changes (replay_job-Change stamp now later p y.server)
  step-Moves y (reports now d) = changes (handle_event-Change now d y.server)
  step-Moves y (takes now later) = changes (take_next-Change now later y y.busy)
  step-Moves y (finishes outcome now later) = changes (finish-Change outcome now later y y.busy)
