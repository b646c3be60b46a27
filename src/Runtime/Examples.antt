-- ===== src/Runtime/Examples.antt =====
-- internal/expert/runtime at small inputs: the theorems at a runtime with a few tasks.
mod Posts
use cova.Base.{
  ℕ, zero, suc, ◌+◌, ◌^◌, ◌≤◌, String, ◌+s◌, ◌≡◌, ◌≢◌, refl, ◌⊎◌, inl, inr, ◌||◌, Bool, true, false,
  Option, none, some, List, [], ◌∷◌, lookup, insert, delete, length, ◌=s◌, is_empty, is_blank,
  trim_space, format_uint, if◌then◌else◌, arith,
}
use cova.Base.Fold.{equal_fold, is_there}
use cova.Base.Bytes.{fields, trim_byte, after_prefix, before_suffix, value_or}
use cova.Http.{Request, header}
use cova.Api.{ExpertResult, queued}
use cova.Jobstore.{empty_state}
use cova.Orchestrator.Types.{Job}
use cova.Orchestrator.Types
use cova.Orchestrator.Start
use cova.Orchestrator.Events.{
  Parsed, parsed, expert_events, event_accepted, reported_success, ExpertTaskEventData,
}
use cova.Runtime.{
  Server, TaskRequest, new_server, with_auth_token, with_default_async, validate_task_request,
  check_auth,
}
use cova.Runtime.Tasks.{
  Run, System, Outcome, produced, broke, Action, create, cancel, ends, leaves, run, boot, step,
  create_task, cancel_task, canceling, task_not_found, leave_task, taken, TaskCompletedEvent,
}
use cova.Runtime.Serve.{serve_http, task_reply, no_route}
use cova.Runtime.Runs.{Any}
use cova.Runtime.Counts.{counters_add_up}
use cova.Runtime.Pending.{Canceled, cancel_reaches}
use cova.Runtime.Report.{received, sent_completes}
use cova.Runtime.Paths.{created_cancels}
use cova.Runtime.Lost.{RunsUnder, namesake_unreachable}

-- Named on an `unfolding` line, this opens the whole program.
program : Unit {0}
unfolding run step boot new_server create_task cancel_task leave_task check_auth
    validate_task_request is_empty is_blank trim_space ◌=s◌ lookup insert delete equal_fold fields
    header format_uint taken trim_byte after_prefix before_suffix value_or
program = tt

abbrev task : String → TaskRequest
task id = record {
  task_id = id;
  job_id = "job_1";
  tenant_id = "t1";
  project_id = "p1";
  task_type = "daily_brief";
  input = "";
  timeout_seconds = 0;
  trace_id = "";
}

abbrev no_date : String → String
no_date raw = ""

abbrev brief : ExpertResult
brief = record {
  title = none;
  answer = "steady";
  confidence = 1;
  freshness_cutoff = "";
  references = [];
  citations = [];
  limitations = [];
}

abbrev creating : String → Action
creating id = create 5 "2026-02-27" "async" (some (task id))

-- Two tasks: one succeeds, the other is canceled and breaks.
abbrev day : List Action
day =
    creating "a"
    ∷ creating "b"
    ∷ cancel "b"
    ∷ ends 7 0 (produced brief)
    ∷ ends 8 1 (broke "canceled")
    ∷ leaves 0
    ∷ []

counters_add_up_example :
    ((run no_date day (boot (new_server [] []))).server.metrics.total
      ≡ (run no_date day (boot (new_server [] []))).server.metrics.succeeded
        + (run no_date day (boot (new_server [] []))).server.metrics.failed
        + length (run no_date day (boot (new_server [] []))).running)
    × ((run no_date day (boot (new_server [] []))).server.metrics.canceled
          + length (run no_date day (boot (new_server [] []))).server.pending
        ≤ (run no_date day (boot (new_server [] []))).server.metrics.accepted)
    × (length (run no_date day (boot (new_server [] []))).sent
        ≤ (run no_date day (boot (new_server [] []))).server.metrics.succeeded)
counters_add_up_example = counters_add_up no_date [] [] day (omega arith)

day_counted :
    (run no_date day (boot (new_server [] []))).server.metrics
    ≡ record { total = 2; succeeded = 1; accepted = 2; canceled = 1; failed = 1 }
unfolding program
day_counted = refl

cancel_reaches_example :
    Any
      (Canceled (trim_space " b"))
      (cancel_task " b"
        (run no_date (creating "a" ∷ creating "b" ∷ []) (boot (new_server [] [])))).0.running
    ⊎ Any
        (Canceled (trim_space " b"))
        (cancel_task " b"
          (run no_date (creating "a" ∷ creating "b" ∷ []) (boot (new_server [] [])))).0.ending
unfolding program
cancel_reaches_example = cancel_reaches no_date [] [] (creating "a" ∷ creating "b" ∷ []) " b" refl

abbrev post : String → Request
post path = record {
  method = "POST";
  path = path;
  headers = ("Authorization", "Bearer key") ∷ ("X-COVA-Execution-Mode", "Async") ∷ [];
  remote_addr = "";
  content_length = none;
  body_limit = none;
}

abbrev guarded : System
unfolding new_server boot
guarded = boot (new_server [] (with_auth_token " key" ∷ []))

created_cancels_example :
    (serve_http no_date 9 "2026-02-27" none
      (post "/runtime/v1/tasks/a/cancel")
      (serve_http no_date 5 "2026-02-27" (some (task "a")) (post "/runtime/v1/tasks") guarded).0).1
    ≡ task_reply canceling
unfolding program guarded
created_cancels_example =
    created_cancels no_date 5 9 "2026-02-27" none (task "a") (post "/runtime/v1/tasks")
      (post "/runtime/v1/tasks/a/cancel") guarded refl refl refl refl refl refl refl refl refl refl

abbrev waiting_job : Job
waiting_job = record {
  id = "job_1";
  tenant_id = "t1";
  project_id = "p1";
  expert_id = "e1";
  expert_name = "Macro";
  expert_type = "macro";
  date = "2026-02-27";
  status = queued;
  progress = 0;
  submitted_at = 5;
  updated_at = 5;
  attempt = 1;
  max_attempts = 3;
  expires_at = some 86400000000005;
  last_error = none;
  result = none;
  callback = none;
}

abbrev orchestrator : Types.Server
orchestrator = record (Start.new_server [] [] empty_state) { jobs = ("job_1", waiting_job) ∷ [] }

abbrev told : List TaskCompletedEvent
told = (run no_date day (boot (new_server [] []))).sent

abbrev event_told : TaskCompletedEvent
event_told = record {
  spec_version = "1.0";
  id = "evt_7";
  event_type = "com.cova.expert.task.completed";
  source = "expert://unknown_expert";
  time = 7;
  data_content_type = "application/json";
  task_data = record {
    task_id = "a";
    job_id = "job_1";
    trace_id = "";
    status = "succeeded";
    result = brief;
  };
}

sent_completes_example :
    ((expert_events
        (λ (raw : String). parsed raw)
        (λ e. parsed (received event_told.task_data))
        true
        (some "{}")
        9
        orchestrator).2
      ≡ event_accepted "job_1")
    × (lookup "job_1"
          (expert_events
            (λ (raw : String). parsed raw)
            (λ e. parsed (received event_told.task_data))
            true
            (some "{}")
            9
            orchestrator).0.jobs
        ≡ some (reported_success 9 (received event_told.task_data) waiting_job))
unfolding program
sent_completes_example =
    sent_completes no_date (new_server [] []) day [] [] event_told (λ (raw : String). parsed raw)
      (λ e. parsed (received event_told.task_data)) "{}" "{}" 9 orchestrator waiting_job refl refl
      refl refl refl
