-- ===== src/Orchestrator/Examples.antt =====
-- A small server of internal/orchestrator/server.go: runs of it, and the theorems at concrete inputs.
mod Races
mod Keys
mod Totals
mod Lives
use cova.Base.{
  ◌+◌, ◌^◌, ◌<◌, String, ◌≡◌, refl, List, [], ◌∷◌, Option, none, some, false, lookup, insert,
  delete, map_values, map_option, is_empty, arith, length, trim_space, is_blank, ◌=s◌, format_uint,
}
use cova.Api.{
  SubmitBriefRequest, ExpertResult, JobStatus, queued, running, succeeded, canceled, expired,
}
use cova.Jobstore.{empty_state}
use cova.Orchestrator.Types.{ExpertMetadata, Server, Job, SubmitParams, JobParams}
use cova.Orchestrator.Rules.{
  scoped_idempotency_key, clone_callback_config, mark_expired, is_expired, expert_type_ptr,
  normalize_request_id, expert_supports, job_in_scope,
}
use cova.Orchestrator.Submit.{
  job_name, new_job, accepted, remember, known, Admission, check_submit, submit_brief_job, create,
}
use cova.Orchestrator.Read.{put_job, get_job_status, get_job_result}
use cova.Orchestrator.Control.{cancel_job, replay_job}
use cova.Orchestrator.Date.{is_date}
use cova.Orchestrator.Persist
use cova.Orchestrator.Queue
use cova.Orchestrator.Events.{handle_event}
use cova.Orchestrator.Persist.{
  snapshot, load_state, resume, pending, persist_locked, stored_job, stored_idem, requeued,
}
use cova.Orchestrator.Worker.{start_found, finish_found, brief_input, done}
use cova.Orchestrator.Start.{new_server}
use cova.Orchestrator.System.{
  System, Action, submits, asks_status, cancels, takes, finishes, run, take_next, finish,
}
use cova.Orchestrator.Consistent.{IsConsistent, run-IsConsistent}
use cova.Orchestrator.Restart.{new_server-IsConsistent, restart-IsConsistent}
use cova.Orchestrator.Resumed.{Recovered, load_state-Recovered}
use cova.Orchestrator.Life.{Kept, run_keeps_job, run_keeps_canceled, run_keeps_terminal}
use cova.Orchestrator.Idempotency.{resubmit, submitted_id}
use cova.Orchestrator.Retry.{Exhausted, failing_rounds, retries_exhaust}
use cova.Orchestrator.Faults
use cova.Orchestrator.Faults.{replay_of_expired, retry_dropped}
use cova.Orchestrator.Worker.{process_start, process_finish, async_accepted, execution_failed}
use cova.Orchestrator.Scope.{Owns, replies_own}

-- Named on an `unfolding` line, this opens the whole program.
program : Unit {0}
unfolding run new_server load_state lookup submit_brief_job check_submit is_empty trim_space
    is_blank is_date resume pending map_values empty_state insert delete ◌=s◌ expert_supports
    scoped_idempotency_key create job_name format_uint new_job accepted clone_callback_config
    remember persist_locked snapshot Persist.enqueue Queue.enqueue normalize_request_id put_job
    take_next finish mark_expired is_expired start_found finish_found stored_job stored_idem
    brief_input job_in_scope get_job_status get_job_result cancel_job replay_job handle_event
    expert_type_ptr requeued known
program = tt

abbrev hash_date : SubmitBriefRequest → Option String
hash_date req = some req.date

abbrev macro_expert : ExpertMetadata
macro_expert = record {
  expert_id = "e1";
  expert_name = "Macro";
  expert_type = "macro";
  version = "1";
  supports = "daily_brief" ∷ [];
}

abbrev fresh_server : Server
fresh_server = new_server (macro_expert ∷ []) [] empty_state

abbrev idle : Server → System
idle s = record { server = s; busy = none }

abbrev brief : SubmitBriefRequest
brief = record {
  tenant_id = none;
  project_id = none;
  expert_id = "e1";
  expert_name = none;
  expert_type = none;
  date = "2026-02-27";
  timezone = none;
  callback = none;
  inference = none;
  options = none;
}

abbrev keyed_params : SubmitParams
keyed_params = record {
  request_id = "r1";
  idempotency_key = "k1";
  tenant_id = "t1";
  project_id = "p1";
}

abbrev pub first_job : JobParams
first_job = record { request_id = "r2"; job_id = "job_1"; tenant_id = "t1"; project_id = "p1" }

abbrev answer : ExpertResult
answer = record {
  title = none;
  answer = "up";
  confidence = 76;
  freshness_cutoff = "";
  references = [];
  citations = [];
  limitations = [];
}

abbrev submitting : Action
submitting = submits 0 5 keyed_params brief

-- The job goes through the worker.
abbrev served : List Action
served = submitting ∷ takes 6 6 ∷ finishes (done answer) 7 7 ∷ []

abbrev status_of : String → System → Option JobStatus
status_of id y = map_option (λ j. j.status) (lookup id y.server.jobs)

served_status : status_of "job_1" (run hash_date (idle fresh_server) served) ≡ some succeeded
unfolding program
served_status = refl

not_a_date : is_date "2026-02-29" ≡ false
unfolding program
not_a_date = refl

fresh : IsConsistent fresh_server
fresh = new_server-IsConsistent (macro_expert ∷ []) []

abbrev queued_job : Job
queued_job = record {
  id = "job_1";
  tenant_id = "t1";
  project_id = "p1";
  expert_id = "e1";
  expert_name = "Macro";
  expert_type = "macro";
  date = "2026-02-27";
  status = queued;
  progress = 0;
  submitted_at = 5;
  updated_at = 5;
  attempt = 1;
  max_attempts = 3;
  expires_at = some 86400000000005;
  last_error = none;
  result = none;
  callback = none;
}

abbrev pub submitted_system : System
submitted_system = run hash_date (idle fresh_server) (submitting ∷ [])

submitted-IsConsistent : IsConsistent submitted_system.server
unfolding program
submitted-IsConsistent =
    run-IsConsistent hash_date (idle fresh_server) (submitting ∷ []) (omega arith) fresh

pub submitted_job : lookup "job_1" submitted_system.server.jobs ≡ some queued_job
unfolding program
submitted_job = refl

-- The process stops while the job runs.
abbrev pub stopped_system : System
stopped_system = run hash_date (idle fresh_server) (submitting ∷ takes 6 6 ∷ [])

stopped-IsConsistent : IsConsistent stopped_system.server
unfolding program
stopped-IsConsistent =
    run-IsConsistent hash_date (idle fresh_server) (submitting ∷ takes 6 6 ∷ []) (omega arith) fresh

load_state-Recovered_example :
    Recovered stopped_system.server (load_state (snapshot stopped_system.server) fresh_server)
unfolding program
load_state-Recovered_example =
    load_state-Recovered stopped_system.server fresh_server stopped-IsConsistent refl (omega arith)

abbrev later_actions : List Action
later_actions = takes 6 6 ∷ finishes (done answer) 7 7 ∷ []

submitted_room : submitted_system.server.next_id + length later_actions < 2 ^ 64
unfolding program
submitted_room = omega arith

run_keeps_job_example :
    Kept "job_1" queued_job
      (λ b. Unit {0})
      (run hash_date submitted_system later_actions).server.jobs
run_keeps_job_example =
    run_keeps_job hash_date submitted_system later_actions "job_1" queued_job submitted_room
      submitted-IsConsistent submitted_job

-- The worker has taken the job, and the caller cancels it.
abbrev canceled_system : System
canceled_system = run hash_date submitted_system (takes 6 6 ∷ cancels 0 7 7 first_job ∷ [])

abbrev canceled_first : Job
canceled_first = record queued_job { status = canceled; progress = 30; updated_at = 7 }

canceled-IsConsistent : IsConsistent canceled_system.server
canceled-IsConsistent =
    run-IsConsistent hash_date submitted_system (takes 6 6 ∷ cancels 0 7 7 first_job ∷ [])
      (unfold program in omega arith) submitted-IsConsistent

canceled_found : lookup "job_1" canceled_system.server.jobs ≡ some canceled_first
unfolding program
canceled_found = refl

canceled_room : canceled_system.server.next_id + 1 < 2 ^ 64
unfolding program
canceled_room = omega arith

run_keeps_canceled_example :
    Kept "job_1" canceled_first
      (λ b. b ≡ canceled)
      (run hash_date canceled_system (finishes (done answer) 8 8 ∷ [])).server.jobs
run_keeps_canceled_example =
    run_keeps_canceled hash_date canceled_system (finishes (done answer) 8 8 ∷ []) "job_1"
      canceled_first canceled_room canceled-IsConsistent canceled_found refl ((λ e. cc), tt)

run_keeps_terminal_example :
    Kept "job_1" canceled_first
      (λ b. b ≡ canceled)
      (run hash_date canceled_system (asks_status 0 9 first_job ∷ [])).server.jobs
run_keeps_terminal_example =
    run_keeps_terminal hash_date canceled_system (asks_status 0 9 first_job ∷ []) "job_1"
      canceled_first canceled_room canceled-IsConsistent canceled_found refl (refl, tt)

abbrev brief_admission : Admission
brief_admission = record {
  tenant_id = "t1";
  project_id = "p1";
  expert_id = "e1";
  expert_name = "Macro";
  expert_type = "macro";
  payload_hash = "2026-02-27";
  idempotency_key = "t1::p1::k1";
}

resubmit_example :
    let s = (run hash_date (idle fresh_server) (submitting ∷ later_actions)).server in
    let (t, reply) = submit_brief_job hash_date 1 9 keyed_params brief s in
    (t ≡ s) × (submitted_id reply.body ≡ some "job_1") × (reply.code ≡ 202)
unfolding program
resubmit_example =
    resubmit hash_date (idle fresh_server) 0 5 keyed_params brief later_actions 1 9 keyed_params
      brief brief_admission brief_admission "job_1" (omega arith) fresh refl refl refl refl refl

abbrev stranger : JobParams
stranger = record { request_id = "r3"; job_id = "job_1"; tenant_id = "t2"; project_id = "p1" }

retries_exhaust_example :
    Exhausted "job_1" "boom"
      (run hash_date (idle submitted_system.server) (failing_rounds "boom" 6 3)).server
retries_exhaust_example = retries_exhaust hash_date "boom" 6 "job_1" 2 submitted_system.server (
    unfold program in
    record {
      job = queued_job;
      found = refl;
      status = refl;
      live = refl;
      left = refl;
      entry = refl;
      room = omega arith;
      unclosed = refl;
    })
