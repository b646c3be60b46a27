-- ===== src/Orchestrator/System.antt =====
-- internal/orchestrator/server.go: the server as the state machine that its handlers and the worker
-- drive. `s.mu` makes each section that holds it one step; the one worker goroutine of `workerLoop`
-- executes at most one job, and whatever else happens meanwhile are the actions in between.
use cova.Base.{ℕ, String, List, [], ◌∷◌, Option, none, some}
use cova.Api.{SubmitBriefRequest}
use cova.Orchestrator.Queue
use cova.Orchestrator.Queue.{MemoryQueue}
use cova.Orchestrator.Types.{Server, SubmitParams, JobParams}
use cova.Orchestrator.Submit.{submit_brief_job}
use cova.Orchestrator.Read.{get_job_status, get_job_result}
use cova.Orchestrator.Control.{cancel_job, replay_job}
use cova.Orchestrator.Worker.{BriefInput, Outcome, process_start, process_finish}
use cova.Orchestrator.Events.{ExpertTaskEventData, handle_event}

pub record System : Type 0 where
  pub server : Server
  -- The job that the worker is executing.
  pub busy : Option String

-- The readings of the clock, then what the caller sends.
pub data Action : Type 0 where
  submits : ℕ → ℕ → SubmitParams → SubmitBriefRequest → Action
  asks_status asks_result : ℕ → ℕ → JobParams → Action
  cancels replays : ℕ → ℕ → ℕ → JobParams → Action
  reports : ℕ → ExpertTaskEventData → Action
  takes : ℕ → ℕ → Action
  finishes : Outcome → ℕ → ℕ → Action

abbrev pub busy_with : String → Server × Option BriefInput → System
busy_with id (s, none) = record { server = s; busy = none }
busy_with id (s, some input) = record { server = s; busy = some id }

unfoldable pub take : ℕ → ℕ → Server → Option (String × MemoryQueue) → System
unfolding process_start
take now later s none = record { server = s; busy = none }
take now later s (some (id, q)) = busy_with id (process_start now later id (record s { queue = q }))

-- `workerLoop` takes the next job; it does so only between two jobs.
unfoldable pub take_next : ℕ → ℕ → System → Option String → System
unfolding take Queue.dequeue
take_next now later y (some id) = y
take_next now later y none = take now later y.server (Queue.dequeue y.server.queue)

unfoldable pub finish : Outcome → ℕ → ℕ → System → Option String → System
unfolding process_finish
finish outcome now later y none = y
finish outcome now later y (some id) = record {
  server = (process_finish outcome now later id y.server).0;
  busy = none;
}

module _ (hash_request : SubmitBriefRequest → Option String) where
  unfoldable pub step : System → Action → System
  unfolding take_next finish
  step y (submits stamp now p req) = record y {
    server = (submit_brief_job hash_request stamp now p req y.server).0;
  }
  step y (asks_status stamp now p) = record y { server = (get_job_status stamp now p y.server).0 }
  step y (asks_result stamp now p) = record y { server = (get_job_result stamp now p y.server).0 }
  step y (cancels stamp now later p) = record y {
    server = (cancel_job stamp now later p y.server).0;
  }
  step y (replays stamp now later p) = record y {
    server = (replay_job stamp now later p y.server).0;
  }
  step y (reports now d) = record y { server = (handle_event now d y.server).0 }
  step y (takes now later) = take_next now later y y.busy
  step y (finishes outcome now later) = finish outcome now later y y.busy

  unfoldable pub run : System → List Action → System
  unfolding step
  run y [] = y
  run y (a ∷ acts) = run (step y a) acts
