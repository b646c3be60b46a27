-- ===== src/Runtime/Serve.antt =====
-- internal/expert/runtime/server.go: `ServeHTTP`. `body` is the decoded body of the request, where it
-- is a task.
use cova.Base.{ℕ, String, Bool, ◌&&◌, Option, none, some, if◌then◌else◌, ◌=s◌}
use cova.Base.Bytes.{trim_byte, after_prefix, before_suffix, value_or}
use cova.Base.Fold.{is_there}
use cova.Http.{Request, header}
use cova.Runtime.{TaskRequest, Capability, TaskMetrics, check_auth}
use cova.Runtime.Tasks.{
  System, Reply, invalid_input, task_accepted, waiting, task_succeeded, dependency_unavailable,
  canceling, task_not_found, create_task, cancel_task,
}

pub data Answer : Type 0 where
  unauthorized : String → Answer
  healthy : String → Answer
  capabilities : Capability → Answer
  task_reply : Reply → Answer
  measured : TaskMetrics → Answer
  alive : Answer
  no_route : Answer

-- The status codes that `writeJSON` gets; `waiting` has none yet.
unfoldable pub reply_code : Reply → ℕ
reply_code (invalid_input why) = 400
reply_code (task_accepted id) = 202
reply_code waiting = 0
reply_code (task_succeeded result) = 200
reply_code (dependency_unavailable why) = 502
reply_code canceling = 202
reply_code task_not_found = 404

unfoldable pub status_of : Answer → ℕ
unfolding reply_code
status_of (unauthorized why) = 401
status_of (healthy version) = 200
status_of (capabilities c) = 200
status_of (task_reply reply) = reply_code reply
status_of (measured m) = 200
status_of alive = 200
status_of no_route = 404

unfoldable pub is_cancel : String → Bool
unfolding is_there after_prefix before_suffix
is_cancel path =
    is_there (after_prefix "/runtime/v1/tasks/" path) && is_there (before_suffix "/cancel" path)

-- The task that a path of a cancel names.
unfoldable pub canceled_id : String → String
unfolding after_prefix before_suffix value_or trim_byte
canceled_id path =
    let rest = value_or path (after_prefix "/runtime/v1/tasks/" path) in
    trim_byte 47 (value_or rest (before_suffix "/cancel" rest))

module _ (date_of : String → String) (now : ℕ) (today : String) (body : Option TaskRequest) where
  unfoldable pub created : Request → System → System × Answer
  unfolding create_task header
  created r y =
      let done = create_task date_of now today (header "X-COVA-Execution-Mode" r) body y in
      (done.0, task_reply done.1)

  unfoldable pub cancels : String → System → System × Answer
  unfolding cancel_task
  cancels id y = let done = cancel_task id y in (done.0, task_reply done.1)

  unfoldable pub routed : Request → System → System × Answer
  unfolding is_cancel canceled_id created cancels
  routed r y =
      if r.method =s "GET" && r.path =s "/runtime/v1/healthz"
      then (y, healthy y.server.capability.version)
      else if r.method =s "GET" && r.path =s "/runtime/v1/capabilities"
      then (y, capabilities y.server.capability)
      else if r.method =s "POST" && r.path =s "/runtime/v1/tasks"
      then created r y
      else if r.method =s "POST" && is_cancel r.path
      then cancels (canceled_id r.path) y
      else if r.method =s "GET" && r.path =s "/metrics"
      then (y, measured y.server.metrics)
      else if r.method =s "GET" && r.path =s "/healthz"
      then (y, alive)
      else (y, no_route)

  unfoldable pub admitted : Request → System → Option String → System × Answer
  unfolding routed
  admitted r y (some why) = (y, unauthorized why)
  admitted r y none = routed r y

  unfoldable pub serve_http : Request → System → System × Answer
  unfolding admitted routed check_auth
  serve_http r y =
      let refusal = check_auth y.server r in
      if y.server.auth_enabled then admitted r y refusal else routed r y
