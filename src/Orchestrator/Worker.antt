-- ===== src/Orchestrator/Worker.antt =====
-- internal/orchestrator/server.go: `processBriefJob`, the worker's part of one job, in the two
-- sections that hold the lock; the executor runs between them, unlocked. internal/worker/executor
-- decides the outcome. `now` and `later` are readings of the clock.
use cova.Base.{
  ℕ, ◌+◌, String, ◌&&◌, not, Option, none, some, lookup, insert, delete, ltb, if◌then◌else◌,
}
use cova.Api.{queued, running, succeeded, failed, ExpertResult, CallbackConfig}
use cova.Jobstore
use cova.Orchestrator.Types.{Job, Server}
use cova.Orchestrator.Rules.{is_canceled, is_expired, mark_expired, clone_callback_config}
use cova.Orchestrator.Persist.{persist_locked, enqueue}
use cova.Orchestrator.Read.{put_job}

-- `executor.BriefInput`
pub record BriefInput : Type 0 where
  pub job_id : String
  pub tenant_id : String
  pub project_id : String
  pub expert_id : String
  pub expert_name : String
  pub expert_type : String
  pub date : String
  pub trace_id : String

unfoldable pub brief_input : Job → BriefInput
brief_input j = record {
  job_id = j.id;
  tenant_id = j.tenant_id;
  project_id = j.project_id;
  expert_id = j.expert_id;
  expert_name = j.expert_name;
  expert_type = j.expert_type;
  date = j.date;
  trace_id = j.id;
}

unfoldable pub started_job : ℕ → Job → Job
started_job now j = record j { status = running; progress = 30; updated_at = now }

unfoldable pub start_found : ℕ → ℕ → String → Server → Option Job → Server × Option BriefInput
unfolding started_job put_job persist_locked
start_found now later id s none = (s, none)
start_found now later id s (some j) =
    if is_canceled j.status
    then (s, none)
    else if is_expired j now
    then (persist_locked (put_job id (mark_expired j later) s), none)
    else (persist_locked (put_job id (started_job later j) s), some (brief_input j))

-- The first section: the input to execute, if the job is to run.
unfoldable pub process_start : ℕ → ℕ → String → Server → Server × Option BriefInput
unfolding start_found
process_start now later id s = start_found now later id s (lookup id s.jobs)

-- What `ExecuteBrief` returns.
pub data Outcome : Type 0 where
  done : ExpertResult → Outcome
  async_accepted : Outcome
  execution_failed : String → Outcome

unfoldable pub waiting_job : ℕ → Job → Job
waiting_job now j = record j { status = running; progress = 60; updated_at = now }

-- The runtime took the task, and will report by an event.
unfoldable pub async_found : ℕ → ℕ → String → Server → Option Job → Server
unfolding waiting_job put_job persist_locked
async_found now later id s none = s
async_found now later id s (some j) =
    if not (is_canceled j.status) && not (is_expired j now)
    then persist_locked (put_job id (waiting_job later j) s)
    else s

unfoldable pub retried_job : Job → Job
retried_job j = record j { attempt = j.attempt + 1; status = queued; progress = 0 }

unfoldable pub exhausted_job : Job → Job
exhausted_job j = record j { status = failed; progress = 100 }

unfoldable pub exhausted_entry : ℕ → String → Job → Jobstore.DeadLetterEntry
exhausted_entry now error j = record {
  job_id = j.id;
  tenant_id = j.tenant_id;
  project_id = j.project_id;
  reason = "max_attempts_exhausted";
  attempts = j.attempt;
  failed_at = now;
  last_error = error;
  final_status = failed;
}

-- The executor failed; `j` has its error noted.
unfoldable pub failed_found : ℕ → String → String → Server → Job → Server
unfolding retried_job exhausted_job exhausted_entry put_job persist_locked enqueue
failed_found now error id s j =
    if is_canceled j.status
    then persist_locked (put_job id j s)
    else if is_expired j now
    then persist_locked (put_job id (mark_expired j now) s)
    else if ltb j.attempt j.max_attempts
    then enqueue id (persist_locked (put_job id (retried_job j) s))
    else persist_locked (
        put_job id (exhausted_job j)
          (record s { dlq = insert id (exhausted_entry now error j) s.dlq }))

unfoldable pub noted_job : ℕ → String → Job → Job
noted_job now error j = record j { last_error = some error; updated_at = now }

unfoldable pub completed_job : ℕ → ExpertResult → Job → Job
completed_job now r j = record j {
  status = succeeded;
  progress = 100;
  result = some r;
  last_error = none;
  updated_at = now;
}

-- The second section after a result: the new state, and the callback to notify.
unfoldable pub done_found :
    ℕ → ExpertResult → String → Server → Job → Server × Option CallbackConfig
unfolding completed_job put_job persist_locked
done_found now r id s j =
    if is_canceled j.status
    then (persist_locked s, none)
    else if is_expired j now
    then (persist_locked (put_job id (mark_expired j now) s), none)
    else (
      persist_locked (put_job id (completed_job now r j) (record s { dlq = delete id s.dlq })),
      clone_callback_config j.callback,
    )

unfoldable pub finish_found :
    Outcome → ℕ → ℕ → String → Server → Option Job → Server × Option CallbackConfig
unfolding async_found failed_found noted_job done_found
finish_found async_accepted now later id s j = (async_found now later id s j, none)
finish_found outcome now later id s none = (s, none)
finish_found (execution_failed error) now later id s (some j) =
    (failed_found now error id s (noted_job now error j), none)
finish_found (done r) now later id s (some j) = done_found now r id s j

-- The second section: the job's fate by the outcome, and the callback of a finished job.
unfoldable pub process_finish : Outcome → ℕ → ℕ → String → Server → Server × Option CallbackConfig
unfolding finish_found
process_finish outcome now later id s = finish_found outcome now later id s (lookup id s.jobs)
