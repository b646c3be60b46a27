-- ===== src/Orchestrator/Overtaken.antt =====
-- internal/orchestrator/server.go: an event that overtakes the runtime's acceptance.
use cova.Base.{
  ℕ, String, ◌≡◌, refl, false, Option, some, [], ◌∷◌, lookup, trim_space, lookup-insert_self, ◌=s◌,
}
use cova.Api.{SubmitBriefRequest, running, succeeded}
use cova.Orchestrator.Types.{Job, Server}
use cova.Orchestrator.Rules.{is_terminal, is_canceled, is_expired}
use cova.Orchestrator.Persist.{persist_locked}
use cova.Orchestrator.Read.{put_job}
use cova.Orchestrator.Worker.{
  async_accepted, process_finish, finish_found, async_found, waiting_job,
}
use cova.Orchestrator.Events.{
  ExpertTaskEventData, handle_event, report_found, report, reported_success,
}
use cova.Orchestrator.System.{System, reports, finishes, finish, step, run}
use cova.Orchestrator.Faults.{status_of}

reported :
    (t : ℕ) (d : ExpertTaskEventData) (s : Server) (j : Job)
    → lookup d.job_id s.jobs ≡ some j
    → is_terminal j.status ≡ false
    → d.status ≡ "succeeded"
    → lookup d.job_id (handle_event t d s).0.jobs ≡ some (reported_success t d j)
unfolding handle_event report_found report put_job persist_locked ◌=s◌ trim_space
reported t d s j found live told =
    rw (found, live, told) (lookup-insert_self d.job_id (reported_success t d j) s.jobs)

accepted_late :
    (now later : ℕ) (id : String) (s : Server) (j : Job)
    → lookup id s.jobs ≡ some j
    → is_canceled j.status ≡ false
    → is_expired j now ≡ false
    → status_of id (process_finish async_accepted now later id s).0 ≡ some running
unfolding process_finish finish_found
accepted_late now later id s j found c x =
    rw (found, async_found, c, x)
      (unfold persist_locked put_job waiting_job in rw lookup-insert_self)

-- An event that overtakes the acceptance is lost: while the worker executes a job that is not final,
-- the event that reports its success makes it succeeded; but when the worker then learns that the
-- task was accepted, before the job's deadline, the job is running.
pub early_event_lost :
    (hash_request : SubmitBriefRequest → Option String) (t now later : ℕ) (d : ExpertTaskEventData)
    (y : System) (j : Job)
    → y.busy ≡ some d.job_id
    → lookup d.job_id y.server.jobs ≡ some j
    → is_terminal j.status ≡ false
    → is_expired j now ≡ false
    → d.status ≡ "succeeded"
    → (status_of d.job_id (run hash_request y (reports t d ∷ [])).server ≡ some succeeded)
      × (status_of d.job_id
            (run hash_request y (reports t d ∷ finishes async_accepted now later ∷ [])).server
          ≡ some running)
unfolding run step finish
early_event_lost hash_request t now later d y j working found live fresh told =
    let event = reported t d y.server j found live told in
    (
      rw event (unfold reported_success in refl),
      rw working (
          accepted_late now later d.job_id (handle_event t d y.server).0 (reported_success t d j)
            event (unfold reported_success in refl) (unfold is_expired reported_success in fresh)),
    )
