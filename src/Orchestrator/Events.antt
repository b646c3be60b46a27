-- ===== src/Orchestrator/Events.antt =====
-- internal/orchestrator/server.go: `ExpertEventsHandler`, which takes the events of an expert
-- runtime. Reading the body, `parseExpertEvent` and `parseExpertEventData` are its parameters.
use cova.Base.{
  ℕ, String, Bool, Option, none, some, lookup, insert, delete, if◌then◌else◌, ◌=s◌, is_blank,
  trim_space,
}
use cova.Api.{succeeded, failed, canceled, ExpertResult, CallbackConfig}
use cova.Jobstore
use cova.Orchestrator.Types.{Job, Server}
use cova.Orchestrator.Rules.{is_terminal, ptr_value, clone_callback_config}
use cova.Orchestrator.Persist.{persist_locked}
use cova.Orchestrator.Read.{put_job}

-- `expertTaskEventData`
pub record ExpertTaskEventData : Type 0 where
  pub task_id : String
  pub job_id : String
  pub trace_id : String
  pub status : String
  pub result : Option ExpertResult
  pub error : Option String

-- The replies of the handler, by HTTP status: 405, 400, 401, 404, 400 and 202.
pub data EventReply : Type 0 where
  method_not_allowed invalid_request : EventReply
  unauthorized invalid_input : String → EventReply
  job_not_found unsupported_status : EventReply
  event_accepted : String → EventReply

unfoldable pub reported_success : ℕ → ExpertTaskEventData → Job → Job
reported_success now d j = record j {
  status = succeeded;
  progress = 100;
  result = d.result;
  last_error = none;
  updated_at = now;
}

unfoldable pub reported_failure : ℕ → ExpertTaskEventData → Job → Job
reported_failure now d j = record j {
  status = failed;
  progress = 100;
  last_error = d.error;
  updated_at = now;
}

unfoldable pub reported_cancel : ℕ → Job → Job
reported_cancel now j = record j { status = canceled; progress = 100; updated_at = now }

unfoldable pub failure_entry : ℕ → ExpertTaskEventData → Job → Jobstore.DeadLetterEntry
failure_entry now d j = record {
  job_id = j.id;
  tenant_id = j.tenant_id;
  project_id = j.project_id;
  reason = "runtime_failed";
  attempts = j.attempt;
  failed_at = now;
  last_error = ptr_value d.error;
  final_status = failed;
}

-- The `switch` on the reported status, for a job that is not final.
unfoldable pub report :
    ℕ → ExpertTaskEventData → Server → Job → Server × Option CallbackConfig × EventReply
unfolding reported_success reported_failure reported_cancel failure_entry put_job persist_locked
report now d s j =
    let status = trim_space d.status in
    if status =s "succeeded"
    then (
      persist_locked
          (put_job d.job_id (reported_success now d j) (record s { dlq = delete j.id s.dlq })),
      clone_callback_config j.callback,
      event_accepted d.job_id,
    )
    else if status =s "failed"
    then (
      persist_locked (
          put_job d.job_id (reported_failure now d j)
            (record s { dlq = insert j.id (failure_entry now d j) s.dlq })),
      none,
      event_accepted d.job_id,
    )
    else if status =s "canceled"
    then (
      persist_locked (put_job d.job_id (reported_cancel now j) s),
      none,
      event_accepted d.job_id,
    )
    else (s, none, unsupported_status)

unfoldable pub report_found :
    ℕ → ExpertTaskEventData → Server → Option Job → Server × Option CallbackConfig × EventReply
unfolding report
report_found now d s none = (s, none, job_not_found)
report_found now d s (some j) =
    if is_terminal j.status then (s, none, event_accepted d.job_id) else report now d s j

-- The handler once the event's data is known: new state, callback to notify, reply.
unfoldable pub handle_event :
    ℕ → ExpertTaskEventData → Server → Server × Option CallbackConfig × EventReply
unfolding report_found
handle_event now d s = report_found now d s (lookup d.job_id s.jobs)

pub data Parsed {ℓ} (A : Type ℓ) : Type ℓ where
  parsed : A → Parsed A
  bad : String → Parsed A

-- The last check of `parseExpertEventData`: the data must name a job.
unfoldable pub named_job : ExpertTaskEventData → Parsed ExpertTaskEventData
named_job d = if is_blank d.job_id then bad "event data missing job_id" else parsed d

module _ {Raw Event : Type 0} (parse_expert_event : Raw → Parsed Event)
    (decode : Event → Parsed ExpertTaskEventData) where
  unfoldable pub event_data :
      ℕ → Server → Parsed ExpertTaskEventData → Server × Option CallbackConfig × EventReply
  unfolding handle_event
  event_data now s (bad e) = (s, none, invalid_input e)
  event_data now s (parsed d) = handle_event now d s

  unfoldable pub checked_data : Parsed ExpertTaskEventData → Parsed ExpertTaskEventData
  unfolding named_job
  checked_data (bad e) = bad e
  checked_data (parsed d) = named_job d

  unfoldable pub event_of : ℕ → Server → Parsed Event → Server × Option CallbackConfig × EventReply
  unfolding event_data checked_data
  event_of now s (bad e) = (s, none, unauthorized e)
  event_of now s (parsed ev) = event_data now s (checked_data (decode ev))

  -- `ExpertEventsHandler`; `body` is `none` where reading it fails.
  unfoldable pub expert_events :
      Bool → Option Raw → ℕ → Server → Server × Option CallbackConfig × EventReply
  unfolding event_of
  expert_events is_post body now s =
      if is_post
      then elim body [
        | none ↦ (s, none, invalid_request)
        | some raw ↦ event_of now s (parse_expert_event raw)
      ]
      else (s, none, method_not_allowed)
