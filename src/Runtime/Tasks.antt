-- ===== src/Runtime/Tasks.antt =====
-- internal/expert/runtime/server.go: `handleCreateTask`, `handleCancelTask` and `runAsyncTask`, and
-- the runtime as a system of requests and tasks. `date_of` is the date that `json.Unmarshal` finds in
-- a task's input, or nothing; `today` and `now` come from the clock.
use cova.Base.{
  ℕ, suc, ◌+◌, ◌*◌, ◌%◌, ◌^◌, String, ◌+s◌, Bool, true, false, ◌||◌, Option, none, some, List, [],
  ◌∷◌, lookup, insert, delete, if◌then◌else◌, ltb, ◌==◌, is_empty, is_blank, trim_space,
  format_uint,
}
use cova.Base.Fold.{equal_fold}
use cova.Api.{ExpertResult}
use cova.Runtime.{Server, TaskRequest, PendingTask, validate_task_request}

-- A task that the executor has: where it came in, its context, and whether that was canceled.
pub record Run : Type 0 where
  pub context : ℕ
  pub request : TaskRequest
  pub date : String
  pub timeout : ℕ
  pub background : Bool
  pub canceled : Bool

pub record TaskCompletedData : Type 0 where
  pub task_id : String
  pub job_id : String
  pub trace_id : String
  pub status : String
  pub result : ExpertResult

-- `TaskCompletedEvent`, with its time in nanoseconds.
pub record TaskCompletedEvent : Type 0 where
  pub spec_version : String
  pub id : String
  pub event_type : String
  pub source : String
  pub time : ℕ
  pub data_content_type : String
  pub task_data : TaskCompletedData

-- The server with the tasks that run, the background tasks that have reported but not left, the
-- next context, and the events handed to the sink, newest first.
pub record System : Type 0 where
  pub server : Server
  pub running : List Run
  pub ending : List Run
  pub next_context : ℕ
  pub sent : List TaskCompletedEvent

-- The executor's result or its error.
pub data Outcome : Type 0 where
  produced : ExpertResult → Outcome
  broke : String → Outcome

-- `waiting` is no reply yet: the request ends with its task.
pub data Reply : Type 0 where
  invalid_input : String → Reply
  task_accepted : String → Reply
  waiting : Reply
  task_succeeded : ExpertResult → Reply
  dependency_unavailable : String → Reply
  canceling : Reply
  task_not_found : Reply

unfoldable pub up : ℕ → ℕ
up n = (n + 1) % 2 ^ 64

unfoldable pub count_total : Server → Server
unfolding up
count_total s = record s { metrics = record s.metrics { total = up s.metrics.total } }

unfoldable pub count_succeeded : Server → Server
unfolding up
count_succeeded s = record s { metrics = record s.metrics { succeeded = up s.metrics.succeeded } }

unfoldable pub count_accepted : Server → Server
unfolding up
count_accepted s = record s { metrics = record s.metrics { accepted = up s.metrics.accepted } }

unfoldable pub count_canceled : Server → Server
unfolding up
count_canceled s = record s { metrics = record s.metrics { canceled = up s.metrics.canceled } }

unfoldable pub count_failed : Server → Server
unfolding up
count_failed s = record s { metrics = record s.metrics { failed = up s.metrics.failed } }

-- The id of the next task of the expert, at a time.
unfoldable pub new_expert_task_id : ℕ → Server → Server × String
unfolding up
new_expert_task_id now s =
    let n = up s.seq in
    (record s { seq = n }, "exp_t_" +s (format_uint now +s ("_" +s format_uint n)))

unfoldable pub timeout_of : Server → TaskRequest → ℕ
timeout_of s req =
    if ltb 0 req.timeout_seconds then req.timeout_seconds * 1000000000 else s.default_timeout

unfoldable pub counted : System → System
unfolding count_total
counted y = record y { server = count_total y.server }

module _ (date_of : String → String) where
  unfoldable pub input_date : String → TaskRequest → String
  input_date today req =
      let date = if is_empty req.input then "" else date_of req.input in
      if is_blank date then today else date

  unfoldable pub new_run : String → Bool → TaskRequest → System → Run
  unfolding input_date timeout_of
  new_run today background req y = record {
    context = y.next_context;
    request = req;
    date = input_date today req;
    timeout = timeout_of y.server req;
    background = background;
    canceled = false;
  }

  -- The task is pending under its id and runs on its own.
  unfoldable pub start_async : ℕ → String → TaskRequest → System → System × Reply
  unfolding new_expert_task_id count_accepted new_run
  start_async now today req y =
      let named = new_expert_task_id now y.server in
      let held = record named.0 {
        pending = insert req.task_id (record { context = y.next_context }) y.server.pending;
      } in
      (
        record y {
          server = count_accepted held;
          running = new_run today true req y ∷ y.running;
          next_context = suc y.next_context;
        },
        task_accepted named.1,
      )

  -- The request waits for its task.
  unfoldable pub start_sync : String → TaskRequest → System → System × Reply
  unfolding new_run
  start_sync today req y = (
    record y { running = new_run today false req y ∷ y.running; next_context = suc y.next_context },
    waiting,
  )

  unfoldable pub start_valid : ℕ → String → String → TaskRequest → System → System × Reply
  unfolding start_async start_sync counted
  start_valid now today mode req y =
      if y.server.default_async || equal_fold "async" (trim_space mode)
      then start_async now today req (counted y)
      else start_sync today req (counted y)

  unfoldable pub start_checked :
      ℕ → String → String → TaskRequest → System → Option String → System × Reply
  unfolding start_valid
  start_checked now today mode req y (some e) = (y, invalid_input e)
  start_checked now today mode req y none = start_valid now today mode req y

  -- `handleCreateTask` up to the executor, for the decoded body and the X-COVA-Execution-Mode header.
  unfoldable pub create_task : ℕ → String → String → Option TaskRequest → System → System × Reply
  unfolding start_checked validate_task_request
  create_task now today mode none y = (y, invalid_input "request body must be valid JSON")
  create_task now today mode (some req) y =
      start_checked now today mode req y (validate_task_request req)

-- The cancel function of a context, on the tasks.
unfoldable pub cancel_context : ℕ → List Run → List Run
cancel_context c [] = []
cancel_context c (r ∷ runs) =
    let rest = cancel_context c runs in
    if r.context == c then record r { canceled = true } ∷ rest else r ∷ rest

unfoldable pub cancel_found : String → System → Option PendingTask → System × Reply
unfolding count_canceled cancel_context
cancel_found id y none = (y, task_not_found)
cancel_found id y (some p) = (
  record y {
    server = count_canceled (record y.server { pending = delete id y.server.pending });
    running = cancel_context p.context y.running;
    ending = cancel_context p.context y.ending;
  },
  canceling,
)

-- `handleCancelTask`
unfoldable pub cancel_task : String → System → System × Reply
unfolding cancel_found
cancel_task raw y =
    let id = trim_space raw in
    if is_empty id
    then (y, invalid_input "task_id is required")
    else cancel_found id y (lookup id y.server.pending)

-- The task of a context with the tasks beside it.
unfoldable pub taken_or : Run → Option (Run × List Run) → Option (Run × List Run)
taken_or r none = none
taken_or r (some (found, rest)) = some (found, r ∷ rest)

unfoldable pub taken : ℕ → List Run → Option (Run × List Run)
unfolding taken_or
taken c [] = none
taken c (r ∷ runs) =
    let rest = taken_or r (taken c runs) in if r.context == c then some (r, runs) else rest

unfoldable pub completed : ℕ → Server → Run → ExpertResult → TaskCompletedEvent
completed now s r result = record {
  spec_version = "1.0";
  id = "evt_" +s format_uint now;
  event_type = "com.cova.expert.task.completed";
  source = "expert://" +s s.capability.expert_id;
  time = now;
  data_content_type = "application/json";
  task_data = record {
    task_id = r.request.task_id;
    job_id = r.request.job_id;
    trace_id = r.request.trace_id;
    status = "succeeded";
    result = result;
  };
}

-- The end of the executor's call: the request is answered, or the background task reports.
unfoldable pub settle : ℕ → Outcome → Run → System → System × Reply
unfolding count_failed count_succeeded completed
settle now (broke e) r y =
    if r.background
    then (record y { server = count_failed y.server; ending = r ∷ y.ending }, waiting)
    else (record y { server = count_failed y.server }, dependency_unavailable e)
settle now (produced result) r y =
    if r.background
    then (
      record y {
        server = count_succeeded y.server;
        ending = r ∷ y.ending;
        sent = completed now y.server r result ∷ y.sent;
      },
      waiting,
    )
    else (record y { server = count_succeeded y.server }, task_succeeded result)

unfoldable pub end_found : ℕ → Outcome → System → Option (Run × List Run) → System × Reply
unfolding settle
end_found now o y none = (y, waiting)
end_found now o y (some (r, rest)) = settle now o r (record y { running = rest })

-- The executor returns for the task of a context.
unfoldable pub end_task : ℕ → ℕ → Outcome → System → System × Reply
unfolding end_found taken
end_task now c o y = end_found now o y (taken c y.running)

unfoldable pub leave_found : System → Option (Run × List Run) → System
leave_found y none = y
leave_found y (some (r, rest)) = record y {
  server = record y.server { pending = delete r.request.task_id y.server.pending };
  ending = rest;
}

-- The deferred part of `runAsyncTask`.
unfoldable pub leave_task : ℕ → System → System
unfolding leave_found taken
leave_task c y = leave_found y (taken c y.ending)

-- What happens in a runtime, one section at a time.
pub data Action : Type 0 where
  create : ℕ → String → String → Option TaskRequest → Action
  cancel : String → Action
  ends : ℕ → ℕ → Outcome → Action
  leaves : ℕ → Action

unfoldable pub step : (String → String) → Action → System → System
unfolding create_task cancel_task end_task leave_task
step date_of (create now today mode body) y = (create_task date_of now today mode body y).0
step date_of (cancel id) y = (cancel_task id y).0
step date_of (ends now c o) y = (end_task now c o y).0
step date_of (leaves c) y = leave_task c y

unfoldable pub run : (String → String) → List Action → System → System
unfolding step
run date_of [] y = y
run date_of (a ∷ actions) y = run date_of actions (step date_of a y)

unfoldable pub boot : Server → System
boot s = record { server = s; running = []; ending = []; next_context = 0; sent = [] }
