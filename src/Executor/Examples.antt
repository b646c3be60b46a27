-- ===== src/Executor/Examples.antt =====
-- internal/worker/executor/runtime.go at one job and one runtime.
use cova.Base.{
  String, ◌≡◌, refl, true, Option, none, some, [], ◌∷◌, lookup, insert, ◌=s◌, is_empty, is_blank,
  trim_space,
}
use cova.Base.Bytes.{cut_right, fields}
use cova.Base.Fold.{equal_fold}
use cova.Api.{ExpertResult}
use cova.Http.{header, set_header}
use cova.Orchestrator.Worker.{BriefInput, async_accepted, execution_failed}
use cova.Runtime
use cova.Runtime.{check_auth}
use cova.Runtime.Tasks.{System, boot}
use cova.Runtime.Serve.{serve_http, status_of}
use cova.Executor.{
  RuntimeExecutor, with_auth_token, with_async_mode, new_runtime_executor, http_request,
  task_request, response, unreachable, execute_brief,
}
use cova.Executor.Accepted.{execute_accepted}

abbrev executor : RuntimeExecutor
unfolding new_runtime_executor cut_right trim_space
executor =
    new_runtime_executor " https://macro.example/ "
      (with_auth_token "key" ∷ with_async_mode true ∷ [])

abbrev input : BriefInput
input = record {
  job_id = "job_1";
  tenant_id = "t1";
  project_id = "p1";
  expert_id = "macro";
  expert_name = "Macro";
  expert_type = "macro";
  date = "2026-02-27";
  trace_id = "job_1";
}

abbrev runtime : System
unfolding Runtime.new_server boot trim_space is_blank is_empty
runtime = boot (Runtime.new_server [] (Runtime.with_auth_token "key" ∷ []))

abbrev no_trace : String → String × String
no_trace id = ("1", "2")

abbrev no_result : String → Option (Option ExpertResult)
no_result body = none

execute_accepted_example :
    (execute_brief no_result no_trace
        (λ date. date)
        (λ r t.
          response (status_of (serve_http (λ raw. raw) 5 "2026-02-27" (some t) r runtime).1) "{}")
        executor
        input
      ≡ async_accepted)
    × (lookup "job_1"
          (serve_http
            (λ raw. raw)
            5
            "2026-02-27"
            (some (task_request (λ date. date) executor input))
            (http_request no_trace executor input)
            runtime).0.server.pending
        ≡ some (record { context = 0 }))
unfolding new_runtime_executor executor runtime Runtime.new_server boot cut_right trim_space
    is_blank is_empty check_auth http_request set_header header lookup insert ◌=s◌ fields equal_fold
execute_accepted_example =
    execute_accepted (λ raw. raw) (λ date. date) no_trace (λ answer. "{}") no_result 5 "2026-02-27"
      executor input runtime refl refl refl refl refl refl

lost_call :
    execute_brief no_result no_trace (λ date. date) (λ r t. unreachable "refused") executor input
    ≡ execution_failed "call runtime api: refused"
unfolding execute_brief executor new_runtime_executor cut_right trim_space is_blank is_empty
lost_call = refl
