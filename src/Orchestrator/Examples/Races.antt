-- ===== src/Orchestrator/Examples/Races.antt =====
-- Faults of internal/orchestrator/server.go at the inputs that show them.
use cova.Base.{◌≡◌, ◌≤◌, refl, false, none, some, [], ◌∷◌, ◌++◌, lookup, arith}
use cova.Api.{running, succeeded}
use cova.Orchestrator.Types.{Job}
use cova.Orchestrator.Rules.{is_expired}
use cova.Orchestrator.Events.{ExpertTaskEventData}
use cova.Orchestrator.System.{reports, cancels, replays, takes, finishes, run}
use cova.Orchestrator.Faults
use cova.Orchestrator.Overtaken.{early_event_lost}
use cova.Orchestrator.Stale.{stale_entry_restarts}
use cova.Orchestrator.Worker.{async_accepted, done}
use cova.Orchestrator.Examples.{
  program, idle, answer, queued_job, first_job, submitted_system, submitted_job, stopped_system,
  hash_date,
}

-- The runtime reports the success of the job that the worker executes.
abbrev success : ExpertTaskEventData
success = record {
  task_id = "ert_1";
  job_id = "job_1";
  trace_id = "job_1";
  status = "succeeded";
  result = some answer;
  error = none;
}

abbrev running_job : Job
running_job = record queued_job { status = running; progress = 30; updated_at = 6 }

executed : lookup "job_1" stopped_system.server.jobs ≡ some running_job
unfolding program
executed = refl

at_work : stopped_system.busy ≡ some "job_1"
unfolding program
at_work = refl

early_event_lost_example :
    (Faults.status_of "job_1" (run hash_date stopped_system (reports 7 success ∷ [])).server
      ≡ some succeeded)
    × (Faults.status_of "job_1"
          (run hash_date stopped_system
            (reports 7 success ∷ finishes async_accepted 8 8 ∷ [])).server
        ≡ some running)
early_event_lost_example =
    early_event_lost hash_date 7 8 8 success stopped_system running_job at_work executed refl
      (unfold is_expired in refl) refl

waiting_alone : submitted_system.server.queue.items ≡ "job_1" ∷ []
unfolding program
waiting_alone = refl

queue_open : submitted_system.server.queue.closed ≡ false
unfolding program
queue_open = refl

queue_room : 2 ≤ submitted_system.server.queue.size
unfolding program
queue_room = omega arith

stale_entry_restarts_example :
    let life =
      cancels 0 8 8 first_job
      ∷ replays 0 8 8 first_job
      ∷ takes 8 8
      ∷ finishes (done answer) 8 8
      ∷ [] in
    (Faults.status_of "job_1" (run hash_date (idle submitted_system.server) life).server
      ≡ some succeeded)
    × (Faults.status_of "job_1"
          (run hash_date (idle submitted_system.server) (life ++ takes 8 8 ∷ [])).server
        ≡ some running)
unfolding program
stale_entry_restarts_example =
    stale_entry_restarts hash_date answer 8 0 first_job submitted_system.server queued_job
      submitted_job refl refl refl refl refl waiting_alone queue_open queue_room
